-- ===== src/Protocol/Config/Validate.antt =====
-- The validation of a Set payload in rust/src/protocol.rs, against the rules of the protocol.
use hidpin.Base.{
  ℕ, zero, suc, ◌+◌, ◌≤◌, ◌<◌, ◌≡◌, ◌≢◌, refl, inl, inr, ◌⊎◌, Bool-cases, true, false, List, ◌==◌,
  length, arith,
}
use hidpin.Base.Bits.{bit}
use hidpin.Base.Bytes.{byte_at}
use hidpin.Protocol.Layout.{gpio_count, report_payload_len}
use hidpin.Protocol.ResultCode
use hidpin.Protocol.ResultCode.{result_gpio_none}
use hidpin.Protocol.Config.{
  mode_offset, param_offset, check_setting, check_settings, validate_pin_config_payload,
}

-- The rules for the two bytes of one GPIO (docs/PROTOCOL.md 6.1 and 6.3).
pub record SettingAllowed (available gpio mode param : ℕ) : Type 0 where
  pub mode_known : mode ≤ 4
  pub gpio_available : mode ≢ 0 → bit available gpio ≡ true
  pub unused_plain : mode ≡ 0 → param ≡ 0
  pub level_binary : mode ≡ 4 → param ≤ 1

check_setting-Allowed :
    (available gpio mode param : ℕ)
    → check_setting available gpio mode param ≡ ResultCode.ok
    → SettingAllowed available gpio mode param
unfolding check_setting
check_setting-Allowed available gpio mode param h = ground arith

check_setting_complete :
    (available gpio mode param : ℕ)
    → SettingAllowed available gpio mode param
    → check_setting available gpio mode param ≡ ResultCode.ok
unfolding check_setting
check_setting_complete available gpio mode param v =
    ground (arith, Bool-cases (mode == 0), Bool-cases (mode == 4))

-- What a result other than `ok` says of the two bytes of a GPIO: which rule they break, the rules
-- before it being kept.
abbrev pub Breaks : ℕ → ℕ → ℕ → ℕ → ℕ → Type 0
Breaks available gpio mode param code =
    ((code ≡ ResultCode.bad_mode) × (4 < mode))
    ⊎ ((code ≡ ResultCode.unavailable_gpio)
        × (mode ≤ 4)
        × (mode ≢ 0)
        × (bit available gpio ≡ false))
    ⊎ ((code ≡ ResultCode.unused_with_param) × (mode ≡ 0) × (param ≢ 0))
    ⊎ ((code ≡ ResultCode.bad_output_level)
        × (mode ≡ 4)
        × (bit available gpio ≡ true)
        × (1 < param))

check_setting-Breaks :
    (available gpio mode param : ℕ)
    → (check_setting available gpio mode param == ResultCode.ok) ≡ false
    → Breaks available gpio mode param (check_setting available gpio mode param)
unfolding check_setting
check_setting-Breaks available gpio mode param h = ground arith

module _ (p : List ℕ) (available : ℕ) where
  abbrev pub Allowed : ℕ → Type 0
  Allowed j = SettingAllowed available j (byte_at p (mode_offset j)) (byte_at p (param_offset j))

  -- The outcome of checking GPIOs `g` to `g + n - 1`: all are allowed, or the first that is not is
  -- named with the rule that it breaks.
  abbrev pub Checks : ℕ → ℕ → ℕ × ℕ → Type 0
  Checks g n (code, gpio) =
      ((code ≡ ResultCode.ok)
        × (gpio ≡ result_gpio_none)
        × ((j : ℕ) → g ≤ j → j < g + n → Allowed j))
      ⊎ ((g ≤ gpio)
          × (gpio < g + n)
          × ((j : ℕ) → g ≤ j → j < gpio → Allowed j)
          × Breaks available gpio (byte_at p (mode_offset gpio)) (byte_at p (param_offset gpio))
              code)

  Checks-next : (g n : ℕ) (r : ℕ × ℕ) → Allowed g → Checks (suc g) n r → Checks g (suc n) r
  Checks-next g n (code, gpio) here (inl (c, none_named, all)) = inl (
    c,
    none_named,
    λ j lo hi. elim (Bool-cases (j == g)) [
      | inl e ↦ let e' : j ≡ g = ground arith in rw e' here
      | inr e ↦ all j (ground arith) (omega arith)
    ],
  )
  Checks-next g n (code, gpio) here (inr (lo, hi, all, broken)) = inr (
    omega arith,
    omega arith,
    (λ j a b. elim (Bool-cases (j == g)) [
      | inl e ↦ let e' : j ≡ g = ground arith in rw e' here
      | inr e ↦ all j (ground arith) b
    ]),
    broken,
  )

  pub check_settings-Checks : (g n : ℕ) → Checks g n (check_settings p available g n)
  unfolding check_settings
  check_settings-Checks g zero = inl (refl, refl, λ j lo hi. absurd (omega arith))
  check_settings-Checks g (suc n) =
      elim (Bool-cases (
        check_setting available g (byte_at p (mode_offset g)) (byte_at p (param_offset g))
        == ResultCode.ok)) [
          | inl e ↦ rw e (
              Checks-next g n _ (check_setting-Allowed available g _ _ (ground arith))
                (check_settings-Checks (suc g) n))
          | inr e ↦ rw e (
              inr (
                omega arith,
                omega arith,
                (λ j a b. absurd (omega arith)),
                check_setting-Breaks available g _ _ e,
              ))
        ]

-- The outcome of validating a payload: a wrong length, or a check of the 30 GPIOs; the request_id
-- is that of the payload.
abbrev pub Validates : List ℕ → ℕ → ℕ × ℕ × ℕ → Type 0
Validates p available (code, gpio, id) =
    (id ≡ byte_at p 2)
    × (((length p ≢ report_payload_len)
          × (code ≡ ResultCode.bad_length)
          × (gpio ≡ result_gpio_none))
        ⊎ ((length p ≡ report_payload_len) × Checks p available 0 gpio_count (code, gpio)))

-- Validation accepts a payload exactly when it is 63 bytes long and keeps the rules at every GPIO.
-- It refuses any other payload with the rule that is broken at the first GPIO where one is, and
-- always returns the payload's request_id.
pub validate_pin_config_payload-Validates :
    (p : List ℕ) (available : ℕ) → Validates p available (validate_pin_config_payload p available)
unfolding validate_pin_config_payload
validate_pin_config_payload-Validates p available =
    elim (Bool-cases (length p == report_payload_len)) [
      | inr e ↦ rw e (refl, inl ((λ h. ground arith), refl, refl))
      | inl e ↦ rw e (refl, inr (ground arith, check_settings-Checks p available 0 gpio_count))
    ]
