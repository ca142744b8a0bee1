-- ===== src/Protocol/Config/Accepted.antt =====
-- Validating a whole pin configuration before it is sent, and the same validation of its payload
-- on the device.
use hidpin.Base.{
  ℕ, zero, suc, ◌+◌, ◌≤◌, ◌<◌, ◌≡◌, ◌≢◌, refl, sym, ap, ◌∙◌, inl, inr, ◌⊎◌, Bool-cases, lt→ltb,
  List, length, arith,
}
use hidpin.Base.Bits.{bit}
use hidpin.Base.Bytes.{byte_at}
use hidpin.Error.{Result, ok, err}
use hidpin.Protocol.Layout.{gpio_count, report_payload_len}
use hidpin.Protocol.Pins.{PinConfig, setting_at, to_u8, default_for}
use hidpin.Protocol.Pins.Masks.{setting_at-default_for}
use hidpin.Protocol.ResultCode
use hidpin.Protocol.ResultCode.{result_gpio_none}
use hidpin.Protocol.Config.{
  PinConfigReport, mode_offset, param_offset, encode, encode_head, decode_pin_config,
  check_settings, validate_pin_config_payload, validate_pin_config,
}
use hidpin.Protocol.Config.Payload.{encode-Holds, length-encode, byte_at-encode_head}
use hidpin.Protocol.Config.RoundTrip.{Decodes, decode_pin_config-Decodes}
use hidpin.Protocol.Config.Validate.{
  SettingAllowed, Allowed, Breaks, Checks, check_settings-Checks, Validates,
  validate_pin_config_payload-Validates,
}

-- Every pin of a configuration keeps the rules on a board with these available GPIOs.
abbrev pub ConfigAllowed : ℕ → PinConfig → Type 0
ConfigAllowed available config =
    (g : ℕ)
    → g < gpio_count
    → SettingAllowed available g (to_u8 (setting_at config g).mode) (setting_at config g).param

-- The check reads the mode and parameter bytes only.
check_settings-eq :
    (p q : List ℕ) (available g n : ℕ)
    → ((j : ℕ)
        → g ≤ j
        → j < g + n
        → (byte_at p (mode_offset j) ≡ byte_at q (mode_offset j))
          × (byte_at p (param_offset j) ≡ byte_at q (param_offset j)))
    → check_settings p available g n ≡ check_settings q available g n
unfolding check_settings
check_settings-eq p q available g zero h = refl
check_settings-eq p q available g (suc n) h = rw (
  (h g (omega arith) (omega arith)).0,
  (h g (omega arith) (omega arith)).1,
  check_settings-eq p q available (suc g) n (λ j a b. h j (omega arith) (omega arith)),
)

-- On any report of a configuration the validation is that of the configuration, with the
-- report's request_id.
pub validate-encode :
    (r : PinConfigReport) (available : ℕ)
    → length r.config ≡ gpio_count
    → let (code, gpio) = validate_pin_config r.config available in
      validate_pin_config_payload (encode r) available ≡ (code, gpio, r.request_id)
unfolding validate_pin_config validate_pin_config_payload encode_head
validate-encode r available len = ground (
  arith,
  length-encode r,
  length-encode sent,
  byte_at-encode_head r 2 (omega arith),
  check_settings-eq (encode r) (encode sent) available 0 gpio_count (λ j a b. (
    (encode-Holds r j len (omega arith)).0 ∙ sym (encode-Holds sent j len (omega arith)).0,
    (encode-Holds r j len (omega arith)).1 ∙ sym (encode-Holds sent j len (omega arith)).1,
  )),
)
  where
    sent : PinConfigReport
    sent = record {
      result = ResultCode.ok;
      result_gpio = result_gpio_none;
      request_id = 1;
      config = r.config;
    }

abbrev pub sent_report : PinConfig → ℕ → PinConfigReport
sent_report config id = record {
  result = ResultCode.ok;
  result_gpio = result_gpio_none;
  request_id = id;
  config = config;
}

Allowed-bytes :
    (config : PinConfig) (available id j : ℕ)
    → length config ≡ gpio_count
    → j < gpio_count
    → SettingAllowed available j (to_u8 (setting_at config j).mode) (setting_at config j).param
      ≡ Allowed (encode (sent_report config id)) available j
Allowed-bytes config available id j len h =
    let holds = encode-Holds (sent_report config id) j len h in rw (holds.0, holds.1)

-- The outcome of validating a configuration.
abbrev pub Accepts : PinConfig → ℕ → ℕ × ℕ → Type 0
Accepts config available (code, gpio) =
    ((code ≡ ResultCode.ok) × (gpio ≡ result_gpio_none) × ConfigAllowed available config)
    ⊎ ((code ≢ ResultCode.ok) × (gpio < gpio_count) × (¬ ConfigAllowed available config))

Breaks-Not-Allowed :
    (available gpio mode param code : ℕ)
    → Breaks available gpio mode param code
    → (code ≢ ResultCode.ok) × (¬ SettingAllowed available gpio mode param)
Breaks-Not-Allowed available gpio mode param code (inl (c, m)) =
    ((λ e. omega arith), λ v. omega (arith, v.mode_known))
Breaks-Not-Allowed available gpio mode param code (inr (inl (c, m, used, gone))) =
    ((λ e. omega arith), λ v. ground (arith, v.gpio_available used))
Breaks-Not-Allowed available gpio mode param code (inr (inr (inl (c, m, q)))) =
    ((λ e. omega arith), λ v. q (v.unused_plain m))
Breaks-Not-Allowed available gpio mode param code (inr (inr (inr (c, m, there, q)))) =
    ((λ e. omega arith), λ v. omega (arith, v.level_binary m))

-- The check of a configuration's payload, read as a check of the configuration.
Checks-Accepts :
    (config : PinConfig) (available : ℕ) (r : ℕ × ℕ)
    → length config ≡ gpio_count
    → Checks (encode (sent_report config 1)) available 0 gpio_count r
    → Accepts config available r
Checks-Accepts config available (code, gpio) len (inl (c, none_named, all)) = inl (
  c,
  none_named,
  λ g h. rw (Allowed-bytes config available 1 g len h) (all g (omega arith) (omega arith)),
)
Checks-Accepts config available (code, gpio) len (inr (lo, hi, all, broken)) =
    let (fails, not_allowed) = Breaks-Not-Allowed available gpio _ _ code broken in
    inr (
      fails,
      omega arith,
      λ every. not_allowed (
          rw (← Allowed-bytes config available 1 gpio len (omega arith))
            (every gpio (omega arith))),
    )

-- Validating a configuration of 30 settings succeeds exactly when every pin keeps the rules; a
-- refusal names a GPIO below 30.
pub validate_pin_config-Accepts :
    (config : PinConfig) (available : ℕ)
    → length config ≡ gpio_count
    → Accepts config available (validate_pin_config config available)
unfolding validate_pin_config validate_pin_config_payload
validate_pin_config-Accepts config available len = rw (length-encode (sent_report config 1)) (
    Checks-Accepts config available _ len
      (check_settings-Checks (encode (sent_report config 1)) available 0 gpio_count))

-- A refusal names the first GPIO that breaks a rule.
abbrev pub Refuses : PinConfig → ℕ → ℕ × ℕ → Type 0
Refuses config available (code, gpio) =
    (code ≢ ResultCode.ok)
    × (gpio < gpio_count)
    × (¬ SettingAllowed available gpio (to_u8 (setting_at config gpio).mode)
        (setting_at config gpio).param)
    × ((g : ℕ)
        → g < gpio
        → SettingAllowed available g (to_u8 (setting_at config g).mode) (setting_at config g).param)

Checks-Refuses :
    (config : PinConfig) (available : ℕ) (r : ℕ × ℕ)
    → length config ≡ gpio_count
    → ¬ ConfigAllowed available config
    → Checks (encode (sent_report config 1)) available 0 gpio_count r
    → Refuses config available r
Checks-Refuses config available (code, gpio) len wrong (inl (c, none_named, all)) = absurd (
    wrong
      (λ g h. rw (Allowed-bytes config available 1 g len h) (all g (omega arith) (omega arith))))
Checks-Refuses config available (code, gpio) len wrong (inr (lo, hi, all, broken)) =
    let (fails, not_allowed) = Breaks-Not-Allowed available gpio _ _ code broken in
    (
      fails,
      omega arith,
      (λ here. not_allowed (rw (← Allowed-bytes config available 1 gpio len (omega arith)) here)),
      λ g h. rw (Allowed-bytes config available 1 g len (omega arith)) (all g (omega arith) h),
    )

pub validate_pin_config-Refuses :
    (config : PinConfig) (available : ℕ)
    → length config ≡ gpio_count
    → ¬ ConfigAllowed available config
    → Refuses config available (validate_pin_config config available)
unfolding validate_pin_config validate_pin_config_payload
validate_pin_config-Refuses config available len wrong = rw (length-encode (sent_report config 1)) (
    Checks-Refuses config available _ len wrong
      (check_settings-Checks (encode (sent_report config 1)) available 0 gpio_count))

-- The start configuration of a board passes the board's own validation.
pub validate-default_for : (available : ℕ) → ConfigAllowed available (default_for available)
unfolding to_u8
validate-default_for available g h =
    rw (setting_at-default_for available g) (elim (Bool-cases (bit available g)) [
      | inl e ↦ rw (lt→ltb g gpio_count h, e) (ground arith)
      | inr e ↦ rw (lt→ltb g gpio_count h, e) (ground arith)
    ])

Decodes-Allowed :
    (p : List ℕ) (available : ℕ) (d : Result PinConfigReport)
    → length p ≡ report_payload_len
    → ((j : ℕ) → j < gpio_count → Allowed p available j)
    → Decodes p d
    → (r : PinConfigReport) × (d ≡ ok r) × ConfigAllowed available r.config
Decodes-Allowed p available (err e) len all (inl bad) = absurd (bad len)
Decodes-Allowed p available (err e) len all (inr (j, h, bad)) =
    absurd (omega (arith, (all j h).mode_known))
Decodes-Allowed p available (ok r) len all (_, _, _, _, _, each) =
    (r, refl, λ g h. rw (sym (each g h).0, sym (each g h).1) (all g h))

accepted_payload :
    (p : List ℕ) (available gpio id : ℕ) (v : ℕ × ℕ × ℕ)
    → Validates p available v
    → v ≡ (ResultCode.ok, gpio, id)
    → (length p ≡ report_payload_len) × ((j : ℕ) → j < gpio_count → Allowed p available j)
accepted_payload p available gpio id (code, g, i) (same, inl (wrong, c, gone)) e =
    absurd (ground arith)
accepted_payload p available gpio id (code, g, i) (same, inr (len, inl (c, gone, all))) e =
    (len, λ j h. all j (omega arith) (omega arith))
accepted_payload p available gpio id (code, g, i) (same, inr (len, inr (lo, hi, all, broken))) e =
    absurd ((Breaks-Not-Allowed available g _ _ code broken).0 (ap (λ t. t.0) e))

-- A payload that passes validation always decodes, and to a configuration that keeps the rules:
-- the `expect("validated")` of the simulated board relies on it.
pub validated_decodes :
    (p : List ℕ) (available gpio id : ℕ)
    → validate_pin_config_payload p available ≡ (ResultCode.ok, gpio, id)
    → (r : PinConfigReport) × (decode_pin_config p ≡ ok r) × ConfigAllowed available r.config
validated_decodes p available gpio id e =
    let (len, all) =
      accepted_payload p available gpio id _ (validate_pin_config_payload-Validates p available)
        e in
    Decodes-Allowed p available _ len all (decode_pin_config-Decodes p)
