-- ===== src/Device/Configure.antt =====
-- `Device::set_pin_config` of rust/src/device.rs on any transport.
use hidpin.Base.{ℕ, ◌≡◌, refl, Bool, true, false, some, ◌==◌, ==_refl, length, arith}
use hidpin.Error.{Error, pin_config_rejected}
use hidpin.Protocol.Config.{PinConfigReport, validate_pin_config}
use hidpin.Protocol.Config.Accepted.{ConfigAllowed, Refuses, validate_pin_config-Refuses}
use hidpin.Protocol.Info.{DeviceInfo}
use hidpin.Protocol.Layout.{gpio_count}
use hidpin.Protocol.Pins.{PinConfig}
use hidpin.Protocol.Pins.Equality.{config_eq_sound, config_eq_refl}
use hidpin.Protocol.ResultCode
use hidpin.Transport.{Host, Outcome, done, raised, blocked}
use hidpin.Device.{info, cached, check_readback, set_pin_config, get_pin_config}
use hidpin.Device.Monad.{Session, Op, continue, raise_if, ◌>>=◌, ◌>>◌}

by_outcome :
    {E H A B : Type 0} (o : Outcome A × Session E H) (f : A → Op E H B) {b : B} {t : Session E H}
    → continue o.0 f o.1 ≡ (done b, t)
    → (a : A) × (s : Session E H) × (o ≡ (done a, s)) × (f a s ≡ (done b, t))
by_outcome (done a, s) f h = (a, s, refl, h)
by_outcome (raised e, s) f h = cc
by_outcome (blocked, s) f h = cc

-- What a chain of operations that returned went through.
bind-done :
    {E H A B : Type 0} (m : Op E H A) (f : A → Op E H B) (s : Session E H) {t : Session E H} {b : B}
    → (m >>= f) s ≡ (done b, t)
    → (a : A) × (s' : Session E H) × (m s ≡ (done a, s')) × (f a s' ≡ (done b, t))
unfolding ◌>>=◌
bind-done m f s h = by_outcome (m s) f h

raise_if-done :
    {E H B : Type 0} (test : Bool) (e : Error) (k : Op E H B) (s : Session E H) {t : Session E H}
    {b : B}
    → (raise_if test e >> k) s ≡ (done b, t)
    → (test ≡ false) × (k s ≡ (done b, t))
unfolding ◌>>=◌
raise_if-done true e k s h = cc
raise_if-done false e k s h = (refl, h)

module _ {E H : Type 0} (host : Host E H) where
  -- Information that was read once is not read again.
  pub info_known :
      (s : Session E H) {i : DeviceInfo} → s.device.info ≡ some i → info host s ≡ (done i, s)
  unfolding info cached
  info_known s e = rw e

  -- A configuration that was read is remembered.
  pub get_pin_config-done :
      (s t : Session E H) (r : PinConfigReport)
      → get_pin_config host s ≡ (done r, t)
      → t.device.config ≡ some r.config
  unfolding ◌>>=◌ get_pin_config
  get_pin_config-done s t r h = ground arith

module _ {E H : Type 0} (host : Host E H) (rounds : ℕ) where
  -- A report that answers the request is passed on.
  pub check_readback-done :
      (config : PinConfig) (id : ℕ) (read : PinConfigReport) (s : Session E H)
      → read.request_id ≡ id
      → read.result ≡ ResultCode.ok
      → read.config ≡ config
      → check_readback host rounds config id read s ≡ (done read, s)
  unfolding ◌>>=◌ check_readback
  check_readback-done config id read s same_id accepted same =
      rw (same_id, ==_refl id, accepted, same, config_eq_refl config)

  -- On any transport, a configuration of 30 settings of which one breaks a rule of the known board is
  -- refused before anything is sent: the error names the first GPIO that breaks one, and device and
  -- transport are as before.
  pub set_pin_config-Refuses :
      (config : PinConfig) (s : Session E H) {i : DeviceInfo}
      → s.device.info ≡ some i
      → length config ≡ gpio_count
      → ¬ ConfigAllowed i.available config
      → (result : ℕ) × (gpio : ℕ) × (set_pin_config host rounds config s
          ≡ (raised (pin_config_rejected result gpio true), s))
        × Refuses config i.available (result, gpio)
  unfolding ◌>>=◌ set_pin_config
  set_pin_config-Refuses config s {i} known len wrong =
      let refuses = validate_pin_config-Refuses config i.available len wrong in
      let fails : ((validate_pin_config config i.available).0 == ResultCode.ok) ≡ false =
        ground (arith, refuses.0) in
      (_, _, rw (info_known host s known, fails) refl, refuses)

  check_readback-inv :
      (config : PinConfig) (id : ℕ) (r read : PinConfigReport) (s t : Session E H)
      → check_readback host rounds config id r s ≡ (done read, t)
      → (r ≡ read)
        × (s ≡ t)
        × (read.result ≡ ResultCode.ok)
        × (read.config ≡ config)
        × (read.request_id ≡ id)
  unfolding ◌>>=◌ check_readback
  check_readback-inv config id r read s t h = ground (arith, config_eq_sound r.config config)

  -- When the call returns, the report that was read back has the result `ok` and exactly the
  -- configuration that was sent, which the device remembers.
  pub set_pin_config-done :
      (config : PinConfig) (s t : Session E H) (read : PinConfigReport)
      → set_pin_config host rounds config s ≡ (done read, t)
      → (read.result ≡ ResultCode.ok) × (read.config ≡ config) × (t.device.config ≡ some config)
  unfolding set_pin_config
  set_pin_config-done config s t read h =
      let (i, s1, _, h1) = bind-done _ _ _ h in
      let (_, h2) = raise_if-done _ _ _ _ h1 in
      let (id, s2, _, h3) = bind-done _ _ _ h2 in
      let (p, s3, _, h4) = bind-done _ _ _ h3 in
      let (n, s4, _, h5) = bind-done _ _ _ h4 in
      let (r, s5, got, h6) = bind-done _ _ _ h5 in
      ground
        (arith, check_readback-inv config id r read s5 t h6, get_pin_config-done host s4 s5 r got)
