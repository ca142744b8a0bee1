-- ===== src/Watch/Connect/Retarget.antt =====
-- A new target for `WatchLoop` of rust/src/watch.rs: `set_target`.
use hidpin.Base.{ℕ, ◌+◌, ◌==◌, true, Option, none, some, if◌then◌else◌}
use hidpin.Error.{Result, ok, err, pin_config_rejected, pin_config_conflict}
use hidpin.Device.{get_pin_config, set_pin_config}
use hidpin.Protocol.Config.{PinConfigReport, validate_pin_config}
use hidpin.Protocol.Info.{DeviceInfo}
use hidpin.Protocol.Pins.{PinConfig, config_eq}
use hidpin.Protocol.ResultCode
use hidpin.Transport.{Host}
use hidpin.Watch.Levels.{set_config}
use hidpin.Watch.Loop.{Connection, going, Act, pure, modify, call, now, ◌>>=◌, ◌>>◌}
use hidpin.Watch.Connect.{restore_interval, wrote}

-- The check against the board, once the watcher has met it.
unfoldable pub check_target : PinConfig → Option DeviceInfo → Result (Unit {0})
check_target config none = ok tt
check_target config (some i) =
    let (result, gpio) = validate_pin_config config i.available in
    if result == ResultCode.ok then ok tt else err (pin_config_rejected result gpio true)

module _ {E H : Type 0} (host : Host E H) (rounds : ℕ) where
  -- What follows from the write of `set_target`; `previous` is the target before.
  unfoldable pub target_written :
      Option PinConfig
      → PinConfig
      → PinConfig
      → Result PinConfigReport
      → Act E H (Result (Unit {0}))
  target_written previous found config (ok r) = do wrote host found config; pure (ok tt)
  target_written previous found config (err (pin_config_rejected result gpio here)) = do
    modify (λ w. record w { target = previous })
    pure (err (pin_config_rejected result gpio here))
  target_written previous found config (err (pin_config_conflict expected seen)) = do
    t ← now host
    modify (λ w. record w { restore_at = some (t + restore_interval) })
    pure (err (pin_config_conflict expected seen))
  target_written previous found config (err error) = pure (err error)

  unfoldable pub target_over :
      Option PinConfig → PinConfig → Result PinConfigReport → Act E H (Result (Unit {0}))
  target_over previous config (err error) = pure (err error)
  target_over previous config (ok report) = do
    modify (set_config report.config)
    if config_eq report.config config then pure (ok tt) else do
      written ← call (set_pin_config host rounds config)
      target_written previous report.config config written

  unfoldable pub write_target :
      Option PinConfig → PinConfig → Option (Connection H) → Act E H (Result (Unit {0}))
  write_target previous config none = pure (ok tt)
  write_target previous config (some c) = do
    modify (λ w. record w { restore_at = none })
    read ← call (get_pin_config host)
    target_over previous config read

  unfoldable pub replace_target : PinConfig → Result (Unit {0}) → Act E H (Result (Unit {0}))
  replace_target config (err error) w = (going (err error), w)
  replace_target config (ok u) w =
      write_target w.target config w.conn (record w { target = some config })

  -- `set_target`
  unfoldable pub set_target : PinConfig → Act E H (Result (Unit {0}))
  set_target config w = replace_target config (check_target config w.info) w
