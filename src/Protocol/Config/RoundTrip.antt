-- ===== src/Protocol/Config/RoundTrip.antt =====
-- Decoding pin configuration reports (rust/src/protocol.rs), encoded ones and others.
use hidpin.Base.{
  ℕ, ◌≤◌, ◌<◌, ◌≡◌, refl, sym, ◌∙◌, ◌≢◌, inl, inr, ◌⊎◌, Bool-cases, List, ◌==◌, length,
  length-replicate, eq_of_get_or, arith,
}
use hidpin.Base.Bytes.{byte_at}
use hidpin.Error.{Result, ok, err, ◌>>=◌}
use hidpin.Protocol.Layout.{gpio_count, report_payload_len}
use hidpin.Protocol.Pins.{
  PinMode, PinSetting, PinConfig, setting_at, to_u8, unused_setting, unused_config,
}
use hidpin.Protocol.Config.{
  PinConfigReport, mode_offset, read_settings, encode_head, encode, decode_pin_config,
}
use hidpin.Protocol.Config.Payload.{
  Holds, encode-Holds, length-encode, byte_at-encode_head, Reads, read_settings-Reads,
}

-- What a decoding result says of the payload.
abbrev pub Decodes : List ℕ → Result PinConfigReport → Type 0
Decodes p (ok r) =
    (length p ≡ report_payload_len)
    × (r.result ≡ byte_at p 0)
    × (r.result_gpio ≡ byte_at p 1)
    × (r.request_id ≡ byte_at p 2)
    × (length r.config ≡ gpio_count)
    × ((j : ℕ) → j < gpio_count → Holds p j (setting_at r.config j))
Decodes p (err e) =
    (length p ≢ report_payload_len) ⊎ ((j : ℕ) × (j < gpio_count) × (4 < byte_at p (mode_offset j)))

Decodes-settings :
    (p : List ℕ) (r : Result PinConfig)
    → length p ≡ report_payload_len
    → Reads p 0 gpio_count unused_config r
    → Decodes p (
        r >>= λ config. ok (record {
          result = byte_at p 0;
          result_gpio = byte_at p 1;
          request_id = byte_at p 2;
          config = config;
        }))
unfolding unused_config
Decodes-settings p (ok d) len (same, below, each) =
    (len, refl, refl, refl, same, λ j h. each j (omega arith) (omega arith))
Decodes-settings p (err e) len (j, lo, hi, bad) = inr (j, omega arith, bad)

-- A payload decodes exactly when it is 63 bytes long and each of its 30 mode bytes is at most 4;
-- the report then holds the three bytes of the result and the two bytes of each GPIO.
pub decode_pin_config-Decodes : (p : List ℕ) → Decodes p (decode_pin_config p)
unfolding decode_pin_config unused_config
decode_pin_config-Decodes p = elim (Bool-cases (length p == report_payload_len)) [
  | inr e ↦ rw e (inl (λ h. ground arith))
  | inl e ↦ rw e (
      Decodes-settings p (read_settings p 0 gpio_count unused_config) (ground arith) (
        read_settings-Reads p 0 gpio_count unused_config
          (omega (arith, length-replicate {0} gpio_count unused_setting))))
]

to_u8-injective : (m n : PinMode) → to_u8 m ≡ to_u8 n → m ≡ n
unfolding to_u8
to_u8-injective m n h = ground arith

Holds-unique : (p : List ℕ) (j : ℕ) (s t : PinSetting) → Holds p j s → Holds p j t → s ≡ t
Holds-unique p j s t h k =
    ground (arith, to_u8-injective s.mode t.mode (sym h.0 ∙ k.0), sym h.1 ∙ k.1)

to_u8_le : (m : PinMode) → to_u8 m ≤ 4
unfolding to_u8
to_u8_le m = ground arith

decode-encode_result :
    (r : PinConfigReport) (d : Result PinConfigReport)
    → length r.config ≡ gpio_count
    → Decodes (encode r) d
    → d ≡ ok r
unfolding encode_head
decode-encode_result r (err e) len (inl bad) = absurd (bad (length-encode r))
decode-encode_result r (err e) len (inr (j, h, bad)) =
    absurd (omega (arith, (encode-Holds r j len h).0, to_u8_le (setting_at r.config j).mode))
decode-encode_result r (ok d) len (_, res, gpio, id, same, each) = ground (
  arith,
  byte_at-encode_head r 0 (omega arith),
  byte_at-encode_head r 1 (omega arith),
  byte_at-encode_head r 2 (omega arith),
  configs,
)
  where
    configs : d.config ≡ r.config
    configs = eq_of_get_or unused_setting d.config r.config (same ∙ sym len) (λ j h.
        Holds-unique (encode r) j _ _ (each j (omega arith)) (encode-Holds r j len (omega arith)))

-- Decoding what was encoded gives back the report, for every configuration of 30 settings.
pub decode-encode_pin_config :
    (r : PinConfigReport) → length r.config ≡ gpio_count → decode_pin_config (encode r) ≡ ok r
decode-encode_pin_config r len = decode-encode_result r _ len (decode_pin_config-Decodes (encode r))
