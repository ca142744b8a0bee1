-- ===== src/Watch/Connect/Target.antt =====
-- `set_target` of rust/src/watch.rs: which targets replace the old one.
use hidpin.Base.{ℕ, ◌≡◌, ◌≢◌, ap, ◌∙◌, true, false, ◌==◌, some, length, arith}
use hidpin.Error.{err, pin_config_rejected}
use hidpin.Protocol.Config.{validate_pin_config}
use hidpin.Protocol.Config.Accepted.{ConfigAllowed, Refuses, validate_pin_config-Refuses}
use hidpin.Protocol.Info.{DeviceInfo}
use hidpin.Protocol.Layout.{gpio_count}
use hidpin.Protocol.Pins.{PinConfig}
use hidpin.Protocol.ResultCode
use hidpin.Transport.{Host}
use hidpin.Watch.Connect.Retarget.{check_target, replace_target, set_target}
use hidpin.Watch.Loop.{WatchLoop, going}

check_target-refuses :
    (config : PinConfig) (i : DeviceInfo)
    → (validate_pin_config config i.available).0 ≢ ResultCode.ok
    → let (result, gpio) = validate_pin_config config i.available in
      check_target config (some i) ≡ err (pin_config_rejected result gpio true)
unfolding check_target
check_target-refuses config i wrong =
    let fails : ((validate_pin_config config i.available).0 == ResultCode.ok) ≡ false =
      ground arith in
    rw fails

module _ {E H : Type 0} (host : Host E H) (rounds : ℕ) where
  -- A target of 30 settings of which one breaks a rule of the board that the watcher has met is
  -- refused with the first GPIO that breaks one, and the watcher, its target and its device stay as
  -- they are.
  pub set_target-Refuses :
      (config : PinConfig) (w : WatchLoop E H) {i : DeviceInfo}
      → w.info ≡ some i
      → length config ≡ gpio_count
      → ¬ ConfigAllowed i.available config
      → (result : ℕ) × (gpio : ℕ) × (set_target host rounds config w
          ≡ (going (err (pin_config_rejected result gpio true)), w))
        × Refuses config i.available (result, gpio)
  unfolding set_target replace_target
  set_target-Refuses config w {i} known len wrong =
      let refuses = validate_pin_config-Refuses config i.available len wrong in
      (
        _,
        _,
        ap (λ r. replace_target host rounds config r w)
            (ap (check_target config) known ∙ check_target-refuses config i refuses.0),
        refuses,
      )
