-- ===== src/Watch/Runtime/Safety.antt =====
-- The panics of the thread of rust/src/watch.rs that are in the model: an `expect("connected")`
-- without a connection, an `expect` of a clock without a sample, and a slice beyond the buffer.
use hidpin.Base.{
  ◌≤◌, ltb, ltb→lt, replicate, arith, ℕ, ◌≡◌, ◌≢◌, ◌==◌, refl, sym, subst, Bool, Bool-cases, inl,
  inr, true, false, Option, none, some, List, [], ◌∷◌, if◌then◌else◌, take,
}
use hidpin.Error.{Error, Result, ok, err}
use hidpin.Transport.{Host, IoOutcome, returned, failed, waits, of_io, FitsIn}
use hidpin.Device
use hidpin.Device.Monad.{Session, with_buffer}
use hidpin.Protocol.Layout.{report_len}
use hidpin.Watch.Loop.{Connection, WatchLoop, Verdict, going, fatal, stuck, panicked}
use hidpin.Watch.Runs.{
  Ends, Runs, Runs_bind, Runs_pre, Runs_post, Runs_pure, Runs_set, Runs_if, Runs_choose, Runs_at,
}
use hidpin.Watch.Runs.Calls.{
  AnyConn, AnyConn-IsSteady, Holds, HoldsLinked, HasResult, Runs_call, Runs_call_known, Runs_now,
}
use hidpin.Watch.Runs.Finding.{Safe, Safe-pure, Safe-try_connect}
use hidpin.Watch.Runs.Report.{Runs_snapshot, Runs_received}
use hidpin.Watch.Runs.Restore.{IsLinked-some, Runs_lost, Runs_drop_connection, Runs_restore_target}
use hidpin.Watch.Runs.Retarget.{Safe-set_target}
use hidpin.Watch.Runtime.{
  Command, drive, retarget, Request, Phase, turning, serving, acting, pausing, asleep, leaving,
  closing, over, hung, crashed, System, Next, again, pause,
}
use hidpin.Watch.Runtime.Api.{WatchOptions, started, notify, woken, request_stop}
use hidpin.Watch.Runtime.Invariant.{IsInvariant, Reached_invariant}
use hidpin.Watch.Runtime.Steps.{Label, Reached}
use hidpin.Watch.Runtime.Thread.{
  due, next_at, wait_for, is_empty, drive_open, perform, scan_now, restore_now, settle_now, idle,
  settle, read_done, read_device, act_at, act, turn, served, acted, is_busy, rest_or_turn, left,
  conclude, step_from, thread_step,
}

module _ {E H : Type 0} (host : Host E H) (rounds : ℕ) where
  Runs_drive_open :
      (levels : List (ℕ × Bool)) (conn : Option (Connection H))
      → Runs (λ w. w.conn ≡ conn) (drive_open host rounds levels conn) (λ a. Holds AnyConn)
  unfolding drive_open
  Runs_drive_open levels none = Runs_pure (λ w p. tt)
  Runs_drive_open levels (some c) =
      Runs_post (λ a w q. tt)
        (Runs_pre (λ w p. (tt, IsLinked-some w.conn c p)) (Runs_call (AnyConn-IsSteady H) _))

  pub Safe-perform : (command : Command) → Safe (perform host rounds command)
  unfolding perform
  Safe-perform (drive levels) =
      Runs_at (λ conn. Runs_pre (λ w p. p.1) (Runs_drive_open levels conn))
  Safe-perform (retarget config) = Safe-set_target host rounds config

  Runs_settle : (conn : Option (Connection H)) → Safe (settle host rounds conn)
  unfolding settle
  Runs_settle none = Runs_pure (λ w p. p)
  Runs_settle (some c) =
      Runs_bind (Runs_set (λ w. refl) (λ w p. (tt, tt))) (λ u. Runs_snapshot host rounds)

  -- A read returned no more bytes than a report has.
  IsShort : Result (ℕ × List ℕ) → Type 0
  IsShort (ok (n, buf)) = n ≤ report_len
  IsShort (err error) = Unit

  HasResult-with_buffer :
      (r : IoOutcome ℕ) (buf : List ℕ) (s : Session E H)
      → FitsIn report_len r
      → HasResult IsShort (with_buffer (of_io r) buf s).0
  unfolding IsShort
  HasResult-with_buffer (returned n) buf s fits = fits
  HasResult-with_buffer (failed e) buf s fits = tt
  HasResult-with_buffer waits buf s fits = tt

  read_raw-IsShort :
      (timeout : Option ℕ) (s : Session E H)
      → HasResult IsShort (Device.read_raw host (replicate report_len 0) timeout s).0
  unfolding Device.read_raw
  read_raw-IsShort timeout s =
      HasResult-with_buffer _ _ _
        (host.read_fits s.device.transport (replicate report_len 0) timeout s.env)

  Runs_read_done :
      (r : Result (ℕ × List ℕ))
      → Runs (λ w. HoldsLinked AnyConn w × IsShort r) (read_done host rounds r) (λ u. Holds AnyConn)
  unfolding read_done IsShort
  Runs_read_done (err error) = Runs_pre (λ w p. tt) (Runs_lost host (AnyConn-IsSteady H) error)
  Runs_read_done (ok (n, buf)) =
      Runs_if (n == 0) (Runs_pure (λ w p. tt)) (elim (Bool-cases (ltb report_len n)) [
        | inl long ↦
            rw long (record { run = λ v p. absurd (omega (arith, p.1, ltb→lt report_len n long)) })
        | inr short ↦ rw short (
            Runs_pre (λ w p. p.0)
              (Runs_bind (Runs_now host (HoldsLinked AnyConn) (λ w e p. p))
                (λ at. Runs_received host rounds (take n buf) at)))
      ])

  Runs_read_device :
      (wait : Option ℕ)
      → Runs (HoldsLinked AnyConn) (read_device host rounds wait) (λ u. Holds AnyConn)
  unfolding read_device
  Runs_read_device wait =
      Runs_bind (Runs_call_known (AnyConn-IsSteady H) IsShort _ (read_raw-IsShort _))
        (λ read. Runs_read_done read)

  Safe-scan_now : Safe (scan_now host rounds)
  unfolding scan_now
  Safe-scan_now =
      Runs_bind (Runs_set (λ w. refl) (λ w p. p))
        (λ u. Runs_bind (Safe-try_connect host rounds) (λ u'. Safe-pure))

  Safe-restore_now : Safe (restore_now host rounds)
  unfolding restore_now
  Safe-restore_now =
      Runs_bind (Runs_set (λ w. refl) (λ w p. p))
        (λ u. Runs_bind (Runs_restore_target host (AnyConn-IsSteady H) rounds) (λ u'. Safe-pure))

  Safe-settle_now : Safe (settle_now host rounds)
  unfolding settle_now
  Safe-settle_now = Runs_bind {R = λ u. Holds AnyConn} (Runs_set (λ w. refl) (λ w p. p)) (λ u.
      Runs_bind {R = λ u. Holds AnyConn}
        (Runs_at (λ conn. Runs_pre (λ w p. p.0) (Runs_settle conn))) (λ u'. Safe-pure))

  Runs_idle :
      (delivered : Bool) (conn : Option (Connection H)) (wait : Option ℕ)
      → Runs (λ w. w.conn ≡ conn) (idle host rounds delivered conn wait) (λ n. Holds AnyConn)
  unfolding idle
  Runs_idle true none wait = Runs_pure (λ w p. tt)
  Runs_idle false none wait = Runs_pure (λ w p. tt)
  Runs_idle true (some c) wait =
      Runs_pre (λ w p. (tt, IsLinked-some w.conn c p))
        (Runs_bind (Runs_read_device wait) (λ u. Safe-pure))
  Runs_idle false (some c) wait = Runs_pure (λ w p. tt)

  Safe-act_at : (t : ℕ) → Safe (act_at host rounds t)
  unfolding act_at
  Safe-act_at t = record {
    run = λ v p.
        (Runs_choose {P = λ w. w.conn ≡ v.conn} (due v.scan_at t)
            (Runs_pre (λ w q. tt) Safe-scan_now)
            (Runs_choose (due v.restore_at t) (Runs_pre (λ w q. tt) Safe-restore_now) (
              Runs_choose (due v.settle_at t) (Runs_pre (λ w q. tt) Safe-settle_now)
                (Runs_idle (is_empty v.pending) v.conn (wait_for (next_at v) t))))).run
          v refl;
  }

  pub Safe-act : Safe (act host rounds)
  unfolding act
  Safe-act = Runs_bind (Runs_now host (Holds AnyConn) (λ w e p. p)) (λ t. Safe-act_at t)

-- The thread has not panicked.
abbrev pub IsAlive : Phase → Type 0
IsAlive crashed = ⊥
IsAlive phase = Unit

IsAlive-drained :
    (requests : List Request) → IsAlive (if is_empty requests then acting else serving requests)
IsAlive-drained [] = tt
IsAlive-drained (r ∷ rest) = tt

IsAlive-woken : (phase : Phase) → IsAlive phase → IsAlive (woken phase)
unfolding woken
IsAlive-woken turning alive = tt
IsAlive-woken (asleep wait) alive = tt
IsAlive-woken phase alive = alive

module _ {E H : Type 0} where
  IsAlive-turn : (s : System E H) → IsAlive (turn s).phase
  unfolding turn
  IsAlive-turn s = elim (Bool-cases s.shared.stopping) [
    | inl e ↦ rw e tt
    | inr e ↦ rw e (IsAlive-drained s.shared.requests)
  ]

  IsAlive-served :
      (r : Request) (rest : List Request) (v : Verdict (Result (Unit {0}))) (w u : WatchLoop E H)
      (s : System E H) (Q : Result (Unit {0}) → WatchLoop E H → Type 0)
      → Ends u Q v w
      → IsAlive (served r rest (v, w) s).phase
  unfolding served Ends
  IsAlive-served r rest (going answer) w u s Q x = tt
  IsAlive-served r rest (fatal e) w u s Q x = tt
  IsAlive-served r rest stuck w u s Q x = tt
  IsAlive-served r rest panicked w u s Q x = x

  IsAlive-acted :
      (v : Verdict Next) (w u : WatchLoop E H) (s : System E H) (Q : Next → WatchLoop E H → Type 0)
      → Ends u Q v w
      → IsAlive (acted (v, w) s).phase
  unfolding acted Ends
  IsAlive-acted (going again) w u s Q x = tt
  IsAlive-acted (going (pause wait)) w u s Q x = tt
  IsAlive-acted (fatal e) w u s Q x = tt
  IsAlive-acted stuck w u s Q x = tt
  IsAlive-acted panicked w u s Q x = x

  IsAlive-left :
      (result : Option Error) (v : Verdict (Unit {0})) (w u : WatchLoop E H) (s : System E H)
      (Q : Unit {0} → WatchLoop E H → Type 0)
      → Ends u Q v w
      → IsAlive (left result (v, w) s).phase
  unfolding left Ends
  IsAlive-left result (going tt) w u s Q x = tt
  IsAlive-left result (fatal e) w u s Q x = tt
  IsAlive-left result stuck w u s Q x = tt
  IsAlive-left result panicked w u s Q x = x

module _ {E H : Type 0} (host : Host E H) (rounds : ℕ) where
  IsAlive-step_from :
      (phase : Phase) (s : System E H)
      → s.phase ≡ phase
      → IsAlive phase
      → IsAlive (step_from host rounds phase s).phase
  unfolding step_from rest_or_turn conclude
  IsAlive-step_from turning s e alive = IsAlive-turn s
  IsAlive-step_from (serving []) s e alive = tt
  IsAlive-step_from (serving (r ∷ rest)) s e alive =
      IsAlive-served r rest _ _ s.loop s _ ((Safe-perform host rounds r.command).run s.loop tt)
  IsAlive-step_from acting s e alive =
      IsAlive-acted _ _ s.loop s _ ((Safe-act host rounds).run s.loop tt)
  IsAlive-step_from (pausing wait) s e alive = elim (Bool-cases (is_busy s)) [
    | inl b ↦ rw b tt
    | inr b ↦ rw b tt
  ]
  IsAlive-step_from (asleep wait) s e alive = subst IsAlive (sym e) tt
  IsAlive-step_from (leaving result) s e alive =
      IsAlive-left result _ _ s.loop s _
        ((Runs_drop_connection host (AnyConn-IsSteady H)).run s.loop tt)
  IsAlive-step_from (closing none) s e alive = tt
  IsAlive-step_from (closing (some error)) s e alive = tt
  IsAlive-step_from over s e alive = subst IsAlive (sym e) tt
  IsAlive-step_from hung s e alive = subst IsAlive (sym e) tt
  IsAlive-step_from crashed s e alive = absurd alive

  IsAlive-IsInvariant : IsInvariant host rounds (λ s. IsAlive s.phase)
  unfolding thread_step started notify request_stop
  IsAlive-IsInvariant = record {
    at_start = λ options t env. tt;
    by_thread = λ s alive. IsAlive-step_from s.phase s refl alive;
    by_wake = λ s alive. IsAlive-woken s.phase alive;
    by_take = λ event rest s first alive. IsAlive-woken s.phase alive;
    by_call = λ r s unfinished running alive. IsAlive-woken s.phase alive;
    by_stop = λ s alive. IsAlive-woken s.phase alive;
  }

  pub IsAlive-Reached :
      {options : WatchOptions} {ls : List Label} {s : System E H}
      → Reached host rounds options ls s
      → IsAlive s.phase
  IsAlive-Reached reached = Reached_invariant host rounds IsAlive-IsInvariant reached

  -- In no state that a watcher reaches, by any steps of its thread and of the application, has an
  -- `expect` of the thread failed or a slice of what it read been beyond the buffer. Sums of instants
  -- and look-ups in a configuration are not among the panics of the model.
  pub Reached-alive :
      (options : WatchOptions) (ls : List Label) (s : System E H)
      → Reached host rounds options ls s
      → s.phase ≢ crashed
  Reached-alive options ls s reached h = subst IsAlive h (IsAlive-Reached reached)
