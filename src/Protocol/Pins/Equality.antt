-- ===== src/Protocol/Pins/Equality.antt =====
-- The derived `==` of pin modes, settings and configurations (rust/src/protocol.rs).
use hidpin.Base.{◌≡◌, refl, true, [], ◌∷◌, arith}
use hidpin.Protocol.Pins.{
  PinMode, unused, input, pull_up, pull_down, output, to_u8, try_from, mode_eq, PinSetting,
  setting_eq, PinConfig, config_eq,
}
use hidpin.Error.{ok}

pub try_from-to_u8 : (m : PinMode) → try_from (to_u8 m) ≡ ok m
unfolding try_from to_u8
try_from-to_u8 unused = refl
try_from-to_u8 input = refl
try_from-to_u8 pull_up = refl
try_from-to_u8 pull_down = refl
try_from-to_u8 output = refl

pub mode_eq_sound : (m n : PinMode) → mode_eq m n ≡ true → m ≡ n
unfolding mode_eq
mode_eq_sound m n h = ground arith

pub mode_eq_refl : (m : PinMode) → mode_eq m m ≡ true
unfolding mode_eq
mode_eq_refl m = ground arith

pub setting_eq_sound : (s t : PinSetting) → setting_eq s t ≡ true → s ≡ t
unfolding setting_eq
setting_eq_sound s t h = ground (arith, mode_eq_sound s.mode t.mode)

pub setting_eq_refl : (s : PinSetting) → setting_eq s s ≡ true
unfolding setting_eq
setting_eq_refl s = ground (arith, mode_eq_refl s.mode)

pub config_eq_sound : (c d : PinConfig) → config_eq c d ≡ true → c ≡ d
unfolding config_eq
config_eq_sound [] [] h = refl
config_eq_sound [] (t ∷ d) h = ground arith
config_eq_sound (s ∷ c) [] h = ground arith
config_eq_sound (s ∷ c) (t ∷ d) h = ground (arith, setting_eq_sound s t, config_eq_sound c d)

pub config_eq_refl : (c : PinConfig) → config_eq c c ≡ true
unfolding config_eq
config_eq_refl [] = refl
config_eq_refl (s ∷ c) = ground (arith, setting_eq_refl s, config_eq_refl c)
