-- ===== src/Watch/Connect.antt =====
-- How `WatchLoop` of rust/src/watch.rs loses its connection, and what it notes of failed attempts
-- and of configurations that it wrote. Durations are in nanoseconds.
pub mod Restore
pub mod Report
pub mod Retarget
pub mod Target
pub mod Stale
pub mod Failures
pub mod Finding
use hidpin.Base.{
  ◌%◌, ◌^◌, ℕ, ◌+◌, ◌-◌, ◌^◌, ◌==◌, Bool, true, false, not, ◌&&◌, ◌||◌, Option, none, some, List,
  [], ◌∷◌, ltb, leb, if◌then◌else◌, length, drop, take,
}
use hidpin.Base.Bytes.{byte_at, wrapping_sub16}
use hidpin.Base.Text.{text_eq}
use hidpin.Error.{Error, Result, ok, err, pin_config_rejected, pin_config_conflict}
use hidpin.Error.Display.{display}
use hidpin.Device.{get_pin_config, set_pin_config, request_status, reports_between}
use hidpin.Device.Monad.{Device, Op}
use hidpin.Protocol.Config.{PinConfigReport, validate_pin_config}
use hidpin.Protocol.Flags
use hidpin.Protocol.Info.{DeviceInfo}
use hidpin.Protocol.Layout.{report_len, report_id_status}
use hidpin.Protocol.Pins.{PinConfig, config_eq, mask_to_gpios}
use hidpin.Protocol.ResultCode
use hidpin.Protocol.Status.{StatusReport, decode_status, more_events}
use hidpin.Transport.{Host}
use hidpin.Watch.Clock
use hidpin.Watch.Events.{
  Event, OutputResetCause, suspend, pin_config, driven_outputs, disconnected, connect_failed,
  status_received, outputs_reset, pin_config_changed, pin_config_restored,
}
use hidpin.Watch.Levels.{set_config, on_off, absorb}
use hidpin.Watch.Loop.{
  Connection, WatchLoop, Verdict, going, fatal, stuck, panicked, Act, pure, stop, panic, gets,
  modify, emitted, emit, skip, with_conn, set_conn, call, now, close, ◌>>=◌, ◌>>◌,
}

-- RESTORE_INTERVAL and SETTLE_TIMEOUT
abbrev pub restore_interval : ℕ
restore_interval = 1_000_000_000

abbrev pub settle_timeout : ℕ
settle_timeout = 1_000_000_000

module _ {E H : Type 0} where
  -- Notes a failed attempt to use the device; a cause is reported when it happens twice in a row.
  -- The counter is a `u32`, which wraps around in a release build.
  unfoldable pub failed : Error → WatchLoop E H → WatchLoop E H
  failed error w =
      let count = if text_eq (display error) w.failure then (w.failures + 1) % 2 ^ 32 else 1 in
      let w' = record w { failure = display error; failures = count } in
      if count == 2 then emitted (connect_failed error) w' else w'

  unfoldable pub reset_failures : WatchLoop E H → WatchLoop E H
  reset_failures w = record w { failure = []; failures = 0 }

  -- `OutputsReset` of the pins, where there are any.
  unfoldable pub outputs_event : List ℕ → OutputResetCause → WatchLoop E H → WatchLoop E H
  outputs_event [] cause w = w
  outputs_event (g ∷ gs) cause w = emitted (outputs_reset (g ∷ gs) cause) w

module _ {E H : Type 0} (host : Host E H) where
  -- `self.scan_at = Some(Instant::now() + self.interval)`; the sum has no upper bound here.
  unfoldable pub scan_later : Act E H (Unit {0})
  scan_later = do t ← now host; modify (λ w. record w { scan_at = some (t + w.interval) })

  unfoldable pub drop_open : Option (Connection H) → Act E H (Unit {0})
  drop_open none = skip
  drop_open (some c) = do
    modify (λ w. record w { conn = none; restore_at = none; settle_at = none })
    close host c.device

  -- Closes the connection, if there is one.
  unfoldable pub drop_connection : Act E H (Unit {0})
  drop_connection w = drop_open w.conn w

  unfoldable pub lost_open : Option (Connection H) → Error → Act E H (Unit {0})
  lost_open none error = skip
  lost_open (some c) error = do drop_connection; emit (disconnected error); scan_later

  -- Handles a connection that failed.
  unfoldable pub lost : Error → Act E H (Unit {0})
  lost error w = lost_open w.conn error w

  -- Records that `config` was written over `found`.
  unfoldable pub wrote : PinConfig → PinConfig → Act E H (Unit {0})
  wrote found config = do
    modify (set_config config)
    modify (λ w. record w {
      conn = elim w.conn [ none ↦ none | some c ↦ some (record c { awaiting_config = true }) ];
    })
    t ← now host
    modify (λ w. record w { settle_at = some (t + settle_timeout) })
    modify (outputs_event (driven_outputs found config) pin_config)
