-- ===== src/Watch/Connect/Restore.antt =====
-- How `WatchLoop` of rust/src/watch.rs follows the pin configuration of the device, or writes the
-- target back: `config_changed` and `restore_target`.
use hidpin.Base.{ℕ, ◌+◌, ◌-◌, Bool, not, Option, none, some, ltb, if◌then◌else◌}
use hidpin.Error.{Result, ok, err, pin_config_rejected, pin_config_conflict}
use hidpin.Device.{get_pin_config, set_pin_config}
use hidpin.Protocol.Config.{PinConfigReport}
use hidpin.Protocol.Pins.{PinConfig, config_eq}
use hidpin.Transport.{Host}
use hidpin.Watch.Events.{pin_config_changed, pin_config_restored}
use hidpin.Watch.Levels.{set_config}
use hidpin.Watch.Loop.{
  Connection, going, Act, stop, gets, modify, emitted, emit, skip, call, now, ◌>>=◌, ◌>>◌,
}
use hidpin.Watch.Connect.{restore_interval, lost, wrote}

module _ {E H : Type 0} (host : Host E H) (rounds : ℕ) where
  -- What follows from the write of `restore_target`.
  unfoldable pub restored : PinConfig → PinConfig → Result PinConfigReport → Act E H (Unit {0})
  restored found target (ok r) = do
    modify (λ w. record w { restore_count = w.restore_count + 1 })
    count ← gets (λ w. w.restore_count)
    emit (pin_config_restored found count)
    wrote host found target
  restored found target (err (pin_config_rejected result gpio here)) =
      stop (pin_config_rejected result gpio here)
  restored found target (err (pin_config_conflict expected seen)) = do
    t ← now host
    modify (λ w. record w { restore_at = some (t + restore_interval) })
  restored found target (err error) = lost host error

  unfoldable pub restore_over : PinConfig → Result PinConfigReport → Act E H (Unit {0})
  restore_over target (err error) = lost host error
  restore_over target (ok report) = do
    modify (set_config report.config)
    if config_eq report.config target then skip else do
      written ← call (set_pin_config host rounds target)
      restored report.config target written

  unfoldable pub restore_to : Option PinConfig → Option (Connection H) → Act E H (Unit {0})
  restore_to none conn = skip
  restore_to (some target) none = skip
  restore_to (some target) (some c) = do
    t ← now host
    modify (λ w. record w { restore_at = none; last_restore = some t })
    read ← call (get_pin_config host)
    restore_over target read

  -- Writes the target back.
  unfoldable pub restore_target : Act E H (Unit {0})
  restore_target w = restore_to w.target w.conn w

  -- `self.restore_at = Some(Instant::now() + delay)`
  unfoldable pub restore_after : ℕ → Act E H (Unit {0})
  restore_after delay = do t ← now host; modify (λ w. record w { restore_at = some (t + delay) })

  -- Writes the target back unless the last write was less than RESTORE_INTERVAL ago; the clock is
  -- read for the time since, and again for the next attempt.
  unfoldable pub restore_soon : Option ℕ → Act E H (Unit {0})
  restore_soon none = restore_target
  restore_soon (some last) = do
    t ← now host
    if ltb (t - last) restore_interval
        then restore_after (restore_interval - (t - last))
        else restore_target

  -- The configuration that was read is followed or, if there is another target, written over.
  unfoldable pub follow : Bool → PinConfig → Option PinConfig → Act E H (Unit {0})
  follow changed config none w =
      (going tt, if changed then emitted (pin_config_changed config) w else w)
  follow changed config (some target) w =
      if config_eq config target then skip w else restore_soon w.last_restore w

  unfoldable pub config_read : Result PinConfigReport → Act E H (Unit {0})
  config_read (err error) = lost host error
  config_read (ok report) = do
    old ← gets (λ w. w.config)
    modify (set_config report.config)
    target ← gets (λ w. w.target)
    follow (not (config_eq report.config old)) report.config target

  unfoldable pub config_changed : Act E H (Unit {0})
  config_changed = do read ← call (get_pin_config host); config_read read
