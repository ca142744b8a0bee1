-- ===== src/Watch/Runtime/Thread.antt =====
-- `WatchLoop::run` and `main_loop` of rust/src/watch.rs. The thread takes the lock for short
-- stretches; `thread_step` runs it from one stretch to the next, so that calls of the application
-- come between any two steps.
use hidpin.Base.{
  ℕ, ◌-◌, min, max, ◌==◌, Bool, true, false, not, ◌&&◌, ◌||◌, Option, none, some, List, [], ◌∷◌,
  ◌++◌, map, ltb, leb, if◌then◌else◌, length, take, replicate,
}
use hidpin.Error.{Error, Result, ok, err, device_disconnected, watcher_closed}
use hidpin.Device
use hidpin.Protocol.Layout.{report_len}
use hidpin.Transport.{Host}
use hidpin.Watch.Connect.{drop_connection, lost}
use hidpin.Watch.Connect.Finding.{try_connect}
use hidpin.Watch.Connect.Report.{snapshot, received}
use hidpin.Watch.Connect.Restore.{restore_target}
use hidpin.Watch.Connect.Retarget.{set_target}
use hidpin.Watch.Events.{Event}
use hidpin.Watch.Loop.{
  panic, Connection, WatchLoop, Verdict, going, fatal, stuck, panicked, Act, pure, modify, skip,
  call, now, ◌>>=◌, ◌>>◌,
}
use hidpin.Watch.Runtime.{
  out_capacity, read_poll, least_read, Command, drive, retarget, Request, Reply, Phase, turning,
  serving, acting, pausing, asleep, leaving, closing, over, hung, crashed, System, Next, again,
  pause,
}

-- The requests whose channels are dropped: their callers get `WatcherClosed`.
unfoldable pub dropped : List Request → List Reply
dropped requests = map (λ r. (r.ticket, err watcher_closed)) requests

unfoldable pub due : Option ℕ → ℕ → Bool
due none t = false
due (some at) t = leb at t

earlier : Option ℕ → Option ℕ → Option ℕ
earlier none b = b
earlier (some a) none = some a
earlier (some a) (some b) = some (min a b)

-- `[scan_at, restore_at, settle_at].into_iter().flatten().min()`
unfoldable pub next_at : {E H : Type 0} → WatchLoop E H → Option ℕ
unfolding earlier
next_at w = earlier w.scan_at (earlier w.restore_at w.settle_at)

unfoldable pub wait_for : Option ℕ → ℕ → Option ℕ
wait_for none t = none
wait_for (some at) t = some (at - t)

-- How long a read of the device waits.
unfoldable pub read_timeout : Option ℕ → ℕ
read_timeout none = max read_poll least_read
read_timeout (some wait) = max (min wait read_poll) least_read

abbrev pub is_empty {ℓ} : {A : Type ℓ} → List A → Bool
is_empty [] = true
is_empty (x ∷ xs) = false

-- Moves events to the application while there is room: what is out, and what is left.
unfoldable pub hand_over : List Event → List Event → List Event × List Event
hand_over out [] = (out, [])
hand_over out (e ∷ es) =
    let rest = hand_over (out ++ (e ∷ [])) es in
    if ltb (length out) out_capacity then rest else (out, e ∷ es)

module _ {E H : Type 0} (host : Host E H) (rounds : ℕ) where
  unfoldable pub drive_open : List (ℕ × Bool) → Option (Connection H) → Act E H (Result (Unit {0}))
  drive_open levels none = pure (err device_disconnected)
  drive_open levels (some c) = call (Device.set_outputs host levels)

  unfoldable pub perform : Command → Act E H (Result (Unit {0}))
  perform (drive levels) w = drive_open levels w.conn w
  perform (retarget config) w = set_target host rounds config w

  unfoldable pub settle : Option (Connection H) → Act E H (Unit {0})
  settle none = skip
  settle (some c) = do
    modify (λ w. record w { conn = some (record c { awaiting_config = false }) })
    snapshot host rounds

  -- What comes of a read of the device. A slice beyond the buffer panics.
  unfoldable pub read_done : Result (ℕ × List ℕ) → Act E H (Unit {0})
  read_done (err error) = lost host error
  read_done (ok (n, buf)) =
      if n == 0
      then skip
      else if ltb report_len n
      then panic
      else do at ← now host; received host rounds (take n buf) at

  unfoldable pub read_device : Option ℕ → Act E H (Unit {0})
  read_device wait = do
    read ← call (Device.read_raw host (replicate report_len 0) (some (read_timeout wait)))
    read_done read

  unfoldable pub scan_now : Act E H Next
  scan_now = do modify (λ w. record w { scan_at = none }); try_connect host rounds; pure again

  unfoldable pub restore_now : Act E H Next
  restore_now = do
    modify (λ w. record w { restore_at = none })
    restore_target host rounds
    pure again

  unfoldable pub settle_now : Act E H Next
  settle_now = do modify (λ w. record w { settle_at = none }); λ w. settle w.conn w; pure again

  -- Nothing is due: it reads the device if it may, or else waits.
  unfoldable pub idle : Bool → Option (Connection H) → Option ℕ → Act E H Next
  idle delivered none wait = pure (pause wait)
  idle true (some c) wait = do read_device wait; pure again
  idle false (some c) wait = pure (pause wait)

  -- The loop from the clock on, at the time `t`.
  unfoldable pub act_at : ℕ → Act E H Next
  act_at t w =
      if due w.scan_at t
      then scan_now w
      else if due w.restore_at t
      then restore_now w
      else if due w.settle_at t
      then settle_now w
      else idle (is_empty w.pending) w.conn (wait_for (next_at w) t) w

  unfoldable pub act : Act E H Next
  act = do t ← now host; act_at t

module _ {E H : Type 0} where
  -- The thread at the top of the loop.
  unfoldable pub turn : System E H → System E H
  turn s =
      let (out, pending) = hand_over s.shared.out s.loop.pending in
      let shared = record s.shared { out = out } in
      let s' = record s { loop = record s.loop { pending = pending } } in
      if shared.stopping then record s' { shared = shared; phase = leaving none } else record s' {
        shared = record shared { requests = [] };
        phase = if is_empty shared.requests then acting else serving shared.requests;
      }

  unfoldable pub served :
      Request → List Request → Verdict (Result (Unit {0})) × WatchLoop E H → System E H → System E H
  served r rest (going answer, w) s = record s {
    loop = w;
    phase = serving rest;
    replies = s.replies ++ ((r.ticket, answer) ∷ []);
  }
  served r rest (fatal e, w) s = record s { loop = w; phase = leaving (some e) }
  served r rest (stuck, w) s = record s { loop = w; phase = hung }
  served r rest (panicked, w) s = record s { loop = w; phase = crashed }

  unfoldable pub acted : Verdict Next × WatchLoop E H → System E H → System E H
  acted (going again, w) s = record s { loop = w; phase = turning }
  acted (going (pause wait), w) s = record s { loop = w; phase = pausing wait }
  acted (fatal e, w) s = record s { loop = w; phase = leaving (some e) }
  acted (stuck, w) s = record s { loop = w; phase = hung }
  acted (panicked, w) s = record s { loop = w; phase = crashed }

  -- Whether there is something to do instead of waiting.
  unfoldable pub is_busy : System E H → Bool
  is_busy s =
      not (is_empty s.shared.requests)
      || (s.shared.stopping
          || (not (is_empty s.loop.pending) && ltb (length s.shared.out) out_capacity))

  unfoldable pub rest_or_turn : Option ℕ → System E H → System E H
  rest_or_turn wait s = record s { phase = if is_busy s then turning else asleep wait }

  unfoldable pub left : Option Error → Verdict (Unit {0}) × WatchLoop E H → System E H → System E H
  left result (going u, w) s = record s { loop = w; phase = closing result }
  left result (fatal e, w) s = record s { loop = w; phase = closing result }
  left result (stuck, w) s = record s { loop = w; phase = hung }
  left result (panicked, w) s = record s { loop = w; phase = crashed }

  -- The last lock of `run`.
  unfoldable pub conclude : Option Error → System E H → System E H
  conclude none s = record s {
    shared = record s.shared { out = []; requests = []; finished = true };
    loop = record s.loop { pending = [] };
    replies = s.replies ++ dropped s.shared.requests;
    phase = over;
  }
  conclude (some error) s = record s {
    shared = record s.shared {
      out = s.shared.out ++ s.loop.pending;
      requests = [];
      finished = true;
      error = some error;
    };
    loop = record s.loop { pending = [] };
    replies = s.replies ++ dropped s.shared.requests;
    phase = over;
  }

module _ {E H : Type 0} (host : Host E H) (rounds : ℕ) where
  unfoldable pub step_from : Phase → System E H → System E H
  step_from turning s = turn s
  step_from (serving []) s = record s { phase = turning }
  step_from (serving (r ∷ rest)) s = served r rest (perform host rounds r.command s.loop) s
  step_from acting s = acted (act host rounds s.loop) s
  step_from (pausing wait) s = rest_or_turn wait s
  step_from (asleep wait) s = s
  step_from (leaving result) s = left result (drop_connection host s.loop) s
  step_from (closing result) s = conclude result s
  step_from over s = s
  step_from hung s = s
  step_from crashed s = s

  -- `run`, up to the next time that it takes or leaves the lock.
  unfoldable pub thread_step : System E H → System E H
  thread_step s = step_from s.phase s
