-- ===== src/Watch/Connect/Report.antt =====
-- Reports that reach `WatchLoop` of rust/src/watch.rs: `received`, `snapshot` and `status`.
use hidpin.Base.{
  ℕ, ◌-◌, ◌==◌, Bool, true, false, not, ◌&&◌, ◌||◌, Option, none, some, List, ltb, leb,
  if◌then◌else◌, length, drop, take,
}
use hidpin.Base.Bytes.{byte_at, wrapping_sub16}
use hidpin.Error.{Result, ok, err}
use hidpin.Device.{request_status, reports_between}
use hidpin.Protocol.Flags
use hidpin.Protocol.Layout.{report_len, report_id_status}
use hidpin.Protocol.Pins.{mask_to_gpios}
use hidpin.Protocol.Status.{StatusReport, decode_status, more_events}
use hidpin.Transport.{Host}
use hidpin.Watch.Clock
use hidpin.Watch.Events.{suspend, status_received}
use hidpin.Watch.Levels.{on_off, absorb}
use hidpin.Watch.Loop.{
  Connection, WatchLoop, Verdict, going, fatal, stuck, panicked, Act, gets, modify, emit, skip,
  with_conn, set_conn, call, now, ◌>>=◌, ◌>>◌,
}
use hidpin.Watch.Connect.{outputs_event, lost}
use hidpin.Watch.Connect.Restore.{config_changed}

-- Whether a report was sent before the snapshot; `seq` wraps around.
unfoldable pub is_stale : StatusReport → Option ℕ → Bool
is_stale report none = false
is_stale report (some snapshot) =
    let distance = wrapping_sub16 report.seq snapshot in
    not (Flags.contains report.reason Flags.host_request) && (distance == 0 || leb 0x8000 distance)

-- What a report leaves of the `seq` of the snapshot.
unfoldable pub next_snapshot : StatusReport → Option ℕ → Option ℕ
next_snapshot report snapshot =
    if Flags.contains report.reason Flags.host_request
    then snapshot
    else if is_stale report snapshot
    then snapshot
    else none

unfoldable pub missed_since : Option ℕ → ℕ → ℕ
missed_since none seq = 0
missed_since (some last) seq = reports_between seq last

-- Whether the connection was lost over the configuration that changed.
abbrev pub is_gone : {H : Type 0} → Bool → Option (Connection H) → Bool
is_gone config none = config
is_gone config (some c) = false

abbrev pub is_awaiting : {H : Type 0} → Option (Connection H) → Bool
is_awaiting none = false
is_awaiting (some c) = c.awaiting_config

module _ {E H : Type 0} where
  -- Runs a step of which a fatal error is dropped.
  unfoldable pub ignoring_fatal :
      Verdict (Unit {0}) × WatchLoop E H → Verdict (Unit {0}) × WatchLoop E H
  ignoring_fatal (fatal e, w) = (going tt, w)
  ignoring_fatal (going u, w) = (going u, w)
  ignoring_fatal (stuck, w) = (stuck, w)
  ignoring_fatal (panicked, w) = (panicked, w)

  unfoldable pub note_config_changed : Bool → Connection H → WatchLoop E H → WatchLoop E H
  note_config_changed true c w = record w {
    conn = some (record c { awaiting_config = false });
    settle_at = none;
  }
  note_config_changed false c w = record w { conn = some c }

  unfoldable pub note_output_reset : StatusReport → WatchLoop E H → WatchLoop E H
  note_output_reset report w =
      if Flags.contains report.reason Flags.output_reset
      then outputs_event (mask_to_gpios report.outputs) suspend w
      else w

module _ {E H : Type 0} (host : Host E H) (rounds : ℕ) where
  -- The levels of a report count unless it is stale, the device has yet to take a configuration,
  -- or more events are queued in front of it.
  unfoldable pub absorb_current :
      Bool → Bool → StatusReport → Option (Connection H) → Act E H (Unit {0})
  absorb_current config stale report conn =
      let queued = Flags.contains report.reason Flags.host_request && more_events report in
      if is_gone config conn || (stale || (is_awaiting conn || queued))
      then skip
      else absorb host report

  -- `status`
  unfoldable pub status : StatusReport → ℕ → ℕ → Act E H (Unit {0})
  status report at missed = do
    on ← gets (on_off report)
    let config = Flags.contains report.reason Flags.config_changed
    stale ← with_conn λ c w.
        let stale = is_stale report c.snapshot_seq in
        let c' = record c {
          clock = Clock.add at report.timestamp_us c.clock;
          snapshot_seq = next_snapshot report c.snapshot_seq;
        } in
        (going stale, note_config_changed (config && not stale) c' w)
    emit (status_received report missed on)
    modify (note_output_reset report)
    if config then config_changed host rounds else skip
    conn ← gets (λ w. w.conn)
    absorb_current config stale report conn

  unfoldable pub snapshot_read : Result StatusReport → Act E H (Unit {0})
  snapshot_read (err error) = lost host error
  snapshot_read (ok report) = with_conn λ c. do
    set_conn (record c {
      snapshot_seq = if report.seq == 0 || more_events report then none else some report.seq;
    })
    at ← now host
    λ w. ignoring_fatal (status report at 0 w)

  -- Asks the device for its current state and takes it as the reference for later reports.
  unfoldable pub snapshot : Act E H (Unit {0})
  snapshot = do read ← call (request_status host); snapshot_read read

  unfoldable pub take_report : Result StatusReport → ℕ → Act E H (Unit {0})
  unfolding missed_since
  take_report (err e) at = skip
  take_report (ok report) at = with_conn λ c. do
    set_conn (record c { last_seq = some report.seq })
    status report at (missed_since c.last_seq report.seq)

  -- `received`: a report that the device sent.
  unfoldable pub received : List ℕ → ℕ → Act E H (Unit {0})
  received bytes at =
      if ltb (length bytes) report_len || not (byte_at bytes 0 == report_id_status)
      then skip
      else take_report (decode_status (take (report_len - 1) (drop 1 bytes))) at
