-- ===== src/Watch/Runs/Report.antt =====
-- The steps of rust/src/watch.rs that a report goes through, and the request for a snapshot: they
-- run in every state that has a connection.
use hidpin.Base.{
  ℕ, ◌≡◌, ◌==◌, ◌-◌, ◌||◌, refl, ap, ◌∙◌, Bool, Bool-cases, inl, inr, true, false, not, Option,
  none, some, List, if◌then◌else◌, ltb, length,
}
use hidpin.Base.Bytes.{byte_at}
use hidpin.Error.{Result, ok, err}
use hidpin.Protocol.Flags
use hidpin.Protocol.Layout.{report_len, report_id_status}
use hidpin.Protocol.Pins.{mask_to_gpios}
use hidpin.Protocol.Status.{StatusReport}
use hidpin.Transport.{Host}
use hidpin.Watch.Clock
use hidpin.Watch.Clock.{DeviceClock, Sample, clock_window, closer}
use hidpin.Watch.Connect.Report.{
  is_gone, ignoring_fatal, note_config_changed, note_output_reset, absorb_current, status,
  snapshot_read, snapshot, take_report, received, missed_since,
}
use hidpin.Watch.Connect.Restore.{config_changed}
use hidpin.Watch.Events.{suspend}
use hidpin.Watch.Loop.{Connection, WatchLoop, Verdict, going, fatal, stuck, panicked, modify, skip}
use hidpin.Watch.Runs.{
  Extends-same, Ends, Runs, Runs_bind, Runs_pre, Runs_post, Runs_pure, Runs_gets, Runs_modify,
  Runs_set, Runs_emit, Runs_if,
}
use hidpin.Watch.Runs.Calls.{
  IsLinked, HasSample, IsTimed, IsTimed-IsSteady, AnyConn, AnyConn-IsSteady, Holds, HoldsLinked,
  Runs_with_conn, Runs_now, Runs_call,
}
use hidpin.Watch.Runs.Levels.{IsReady, IsReady-moved, Appends, Runs_absorb}
use hidpin.Watch.Runs.Restore.{Extends-outputs_event, Runs_lost, Runs_config_changed}

HasSample-add_of :
    (cur prev : Option Sample) (start : Option ℕ) (at device_us : ℕ)
    → HasSample (Clock.add at device_us (record { cur = cur; prev = prev; cur_start = start })).cur
unfolding Clock.add
HasSample-add_of none prev start at device_us = tt
HasSample-add_of (some cur) prev none at device_us = tt
HasSample-add_of (some cur) prev (some start) at device_us =
    elim (Bool-cases (ltb (at - start) clock_window)) [
      | inl e ↦
          rw e
            (elim (Bool-cases (closer (at, device_us) cur)) [ inl f ↦ rw f tt | inr f ↦ rw f tt ])
      | inr e ↦ rw e tt
    ]

HasSample-add : (c : DeviceClock) (at device_us : ℕ) → HasSample (Clock.add at device_us c).cur
HasSample-add c at device_us = HasSample-add_of c.cur c.prev c.cur_start at device_us

IsLinked-changed :
    {H : Type 0} (conn : Option (Connection H)) → is_gone true conn ≡ false → IsLinked conn
IsLinked-changed none e = cc
IsLinked-changed (some c) e = tt

module _ {E H : Type 0} where
  -- The connection was not lost, unless over a configuration that changed.
  Survives : Bool → WatchLoop E H → Type 0
  Survives config w = is_gone config w.conn ≡ false → IsLinked w.conn

  Runs_noted :
      (config stale : Bool) (c d : Connection H)
      → HasSample d.clock.cur
      → Runs {E = E}
          (HoldsLinked AnyConn)
          (λ w. (going stale, note_config_changed config d w))
          (λ s. IsReady)
  unfolding note_config_changed Ends
  Runs_noted true stale c d sample = record { run = λ v p. (Extends-same v _ refl, (sample, tt)) }
  Runs_noted false stale c d sample = record { run = λ v p. (Extends-same v _ refl, (sample, tt)) }

  Appends-note_output_reset :
      (report : StatusReport) (w : WatchLoop E H) → Appends w (note_output_reset report w)
  unfolding note_output_reset
  Appends-note_output_reset report w =
      elim (Bool-cases (Flags.contains report.reason Flags.output_reset)) [
        | inl e ↦ rw e (
            let (x, same) = Extends-outputs_event (mask_to_gpios report.outputs) suspend w in
            record { extends = x; linked = same })
        | inr e ↦ rw e record { extends = Extends-same w w refl; linked = refl }
      ]

  Runs_note_output_reset :
      (report : StatusReport)
      → Runs {E = E} {H = H} IsReady (modify (note_output_reset report)) (λ u. IsReady)
  Runs_note_output_reset report =
      Runs_modify
        (λ w p. let x = Appends-note_output_reset report w in (x.extends, IsReady-moved w _ x p))

  Ends-ignoring_fatal :
      (Q : Unit {0} → WatchLoop E H → Type 0) (u v : WatchLoop E H) (r : Verdict (Unit {0}))
      → ((w : WatchLoop E H) → Q tt w)
      → Ends u Q r v
      → Ends u Q (ignoring_fatal (r, v)).0 (ignoring_fatal (r, v)).1
  unfolding Ends ignoring_fatal
  Ends-ignoring_fatal Q u v (going tt) any x = x
  Ends-ignoring_fatal Q u v (fatal e) any x = (x, any v)
  Ends-ignoring_fatal Q u v stuck any x = x
  Ends-ignoring_fatal Q u v panicked any x = x

module _ {E H : Type 0} (host : Host E H) (rounds : ℕ) where
  Runs_absorb_current :
      (config stale : Bool) (report : StatusReport) (conn : Option (Connection H))
      → Runs
          (λ w. (Holds IsTimed w × Survives config w) × (w.conn ≡ conn))
          (absorb_current host rounds config stale report conn)
          (λ u w. Unit {0})
  unfolding absorb_current Survives
  Runs_absorb_current config stale report conn = elim (Bool-cases (is_gone config conn)) [
    | inl gone ↦ rw gone (Runs_pure (λ w p. tt))
    | inr here ↦ rw here (
        Runs_pre (λ w p. (p.0.0, p.0.1 (ap (is_gone config) p.1 ∙ here)))
          (Runs_if (stale || _) (Runs_pure (λ w p. tt))
            (Runs_post (λ u w q. tt) (Runs_absorb host report))))
  ]

  Runs_changes :
      (config : Bool)
      → Runs IsReady
          (if config then config_changed host rounds else skip)
          (λ u w. Holds IsTimed w × Survives config w)
  unfolding Survives
  Runs_changes true =
      Runs_post (λ u w q. (q, IsLinked-changed w.conn))
        (Runs_config_changed host (IsTimed-IsSteady H) rounds)
  Runs_changes false = Runs_pure (λ w p. (p.0, λ e. p.1))

  pub Runs_status :
      (report : StatusReport) (at missed : ℕ)
      → Runs (HoldsLinked AnyConn) (status host rounds report at missed) (λ u w. Unit {0})
  unfolding status
  Runs_status report at missed =
      let config = Flags.contains report.reason Flags.config_changed in
      Runs_bind Runs_gets (λ on.
        Runs_bind {R = λ s. IsReady}
          (Runs_with_conn (λ w p. p.0.1)
            (λ c.
              Runs_pre (λ w p. p.0.0)
                (Runs_noted _ _ c _ (HasSample-add c.clock at report.timestamp_us))))
          (λ stale. Runs_bind (Runs_emit (λ w p. p)) (λ u.
            Runs_bind (Runs_note_output_reset report) (λ u'. Runs_bind (Runs_changes config) (λ u''.
              Runs_bind Runs_gets (λ conn. Runs_absorb_current config stale report conn))))))

  Runs_snapshot_read :
      (r : Result StatusReport)
      → Runs (HoldsLinked AnyConn) (snapshot_read host rounds r) (λ u w. Unit {0})
  unfolding snapshot_read
  Runs_snapshot_read (err error) =
      Runs_post (λ u w q. tt) (Runs_pre (λ w p. p.0) (Runs_lost host (AnyConn-IsSteady H) error))
  Runs_snapshot_read (ok report) =
      Runs_with_conn (λ w p. p.1)
        (λ c. Runs_bind (Runs_set (λ w. refl) (λ w p. (tt, tt))) (λ u.
          Runs_bind (Runs_now host (HoldsLinked AnyConn) (λ w e p. p)) (λ at. record {
            run = λ v p.
                Ends-ignoring_fatal (λ u w. Unit {0}) v _ _ (λ w. tt)
                  ((Runs_status report at 0).run v p);
          })))

  pub Runs_snapshot : Runs (HoldsLinked AnyConn) (snapshot host rounds) (λ u w. Unit {0})
  unfolding snapshot
  Runs_snapshot = Runs_bind (Runs_call (AnyConn-IsSteady H) _) (λ read. Runs_snapshot_read read)

  Runs_take_report :
      (r : Result StatusReport) (at : ℕ)
      → Runs (HoldsLinked AnyConn) (take_report host rounds r at) (λ u w. Unit {0})
  unfolding take_report
  Runs_take_report (err e) at = Runs_pure (λ w p. tt)
  Runs_take_report (ok report) at =
      Runs_with_conn (λ w p. p.1)
        (λ c.
          Runs_bind (Runs_set (λ w. refl) (λ w p. (tt, tt)))
            (λ u. Runs_status report at (missed_since c.last_seq report.seq)))

  pub Runs_received :
      (bytes : List ℕ) (at : ℕ)
      → Runs (HoldsLinked AnyConn) (received host rounds bytes at) (λ u w. Unit {0})
  unfolding received
  Runs_received bytes at =
      Runs_if (ltb (length bytes) report_len || not (byte_at bytes 0 == report_id_status))
        (Runs_pure (λ w p. tt)) (Runs_take_report _ at)
