-- ===== src/Protocol/Pins/Masks.antt =====
-- GPIO masks, lists of GPIO numbers and pin configurations of rust/src/protocol.rs.
use hidpin.Base.{
  ℕ, zero, suc, ◌+◌, ◌^◌, ◌<◌, ◌≡◌, refl, ◌∙◌, Bool, false, ◌&&◌, ◌||◌, List, [], ◌∷◌, ltb,
  if◌then◌else◌, length, get_or, set, length-set, elem, All, Ascending, elem-filter-range,
  filter-range-Ascending, All-filter-range, get_or-set_self, get_or-set_ne, arith, Bool-cases,
  replicate,
}
use hidpin.Base.Bits.{bit, bit-bit_or, bit-pow, bit-none}
use hidpin.Protocol.Layout.{gpio_count, default_debounce_ms}
use hidpin.Protocol.Pins.{
  PinSetting, PinConfig, unused_setting, pull_up_setting, setting_at, is_monitored, is_output,
  mask_from, monitored_mask, outputs_mask, mask_to_gpios, set_all, unused_config, default_for,
}

-- The settings below GPIO `g` have been folded in already, and stay so.
bit-mask_from_below :
    (f : PinSetting → Bool) (g : ℕ) (c : PinConfig) (acc i : ℕ)
    → i < g
    → bit (mask_from f g c acc) i ≡ bit acc i
unfolding mask_from
bit-mask_from_below f g [] acc i h = refl
bit-mask_from_below f g (s ∷ c) acc i h =
    bit-mask_from_below f (suc g) c _ i (omega arith)
    ∙ ground (arith, bit-bit_or acc (2 ^ g) i, bit-pow g i)

-- Bit `g + k` of the fold is the test of the setting `k` of the rest.
bit-mask_from :
    (f : PinSetting → Bool)
    → f unused_setting ≡ false
    → (g : ℕ) (c : PinConfig) (acc k : ℕ)
    → bit (mask_from f g c acc) (g + k) ≡ (bit acc (g + k) || f (setting_at c k))
unfolding mask_from
bit-mask_from f e g [] acc k = ground arith
bit-mask_from f e g (s ∷ c) acc zero =
    let e : g + 0 ≡ g = omega arith in
    rw e (
      bit-mask_from_below f (suc g) c _ g (omega arith)
      ∙ ground (arith, bit-bit_or acc (2 ^ g) g, bit-pow g g))
bit-mask_from f e g (s ∷ c) acc (suc k) =
    let e' : g + suc k ≡ suc g + k = omega arith in
    rw e' (
      bit-mask_from f e (suc g) c _ k
      ∙ ground (arith, bit-bit_or acc (2 ^ g) (suc g + k), bit-pow g (suc g + k)))

bit-mask_from_zero :
    (f : PinSetting → Bool) (c : PinConfig) (k : ℕ)
    → f unused_setting ≡ false
    → bit (mask_from f 0 c 0) k ≡ f (setting_at c k)
bit-mask_from_zero f c k e =
    let e' : 0 + k ≡ k = omega arith in
    (rw e' at (bit-mask_from f e 0 c 0 k)) ∙ ground (arith, bit-none k)

-- Bit `g` of the monitored mask of a configuration says whether GPIO `g` is monitored in it; no
-- other bit is set.
pub bit-monitored_mask :
    (c : PinConfig) (g : ℕ) → bit (monitored_mask c) g ≡ is_monitored (setting_at c g)
unfolding monitored_mask
bit-monitored_mask c g = bit-mask_from_zero is_monitored c g refl

-- Bit `g` of the output mask of a configuration says whether GPIO `g` is an output in it.
pub bit-outputs_mask : (c : PinConfig) (g : ℕ) → bit (outputs_mask c) g ≡ is_output (setting_at c g)
unfolding outputs_mask
bit-outputs_mask c g = bit-mask_from_zero is_output c g refl

-- A GPIO is listed exactly when it is below 30 and its bit is set.
pub elem-mask_to_gpios :
    (mask g : ℕ) → elem g (mask_to_gpios mask) ≡ (ltb g gpio_count && bit mask g)
unfolding mask_to_gpios
elem-mask_to_gpios mask g = elem-filter-range (bit mask) g 0 gpio_count ∙ ground arith

pub mask_to_gpios-Ascending : (mask : ℕ) → Ascending 0 (mask_to_gpios mask)
unfolding mask_to_gpios
mask_to_gpios-Ascending mask = filter-range-Ascending (bit mask) 0 gpio_count

pub mask_to_gpios_lt : (mask : ℕ) → All (λ g. g < gpio_count) (mask_to_gpios mask)
unfolding mask_to_gpios
mask_to_gpios_lt mask = All-filter-range (bit mask) gpio_count 0 gpio_count (omega arith)

length-set_all : (c : PinConfig) (gs : List ℕ) (s : PinSetting) → length (set_all c gs s) ≡ length c
unfolding set_all
length-set_all c [] s = refl
length-set_all c (g ∷ gs) s = length-set_all (set c g s) gs s ∙ length-set c g s

setting_at-set_all :
    (c : PinConfig) (gs : List ℕ) (s : PinSetting) (g : ℕ)
    → All (λ k. k < length c) gs
    → setting_at (set_all c gs s) g ≡ (if elem g gs then s else setting_at c g)
unfolding set_all
setting_at-set_all c [] s g h = refl
setting_at-set_all c (k ∷ gs) s g h = ground (
  arith,
  setting_at-set_all (set c k s) gs s g (rw (length-set c k s) h.1),
  get_or-set_self c k s unused_setting,
  get_or-set_ne c k g s unused_setting,
  Bool-cases (elem g gs),
)

setting_at-replicate :
    (n k : ℕ) → get_or (replicate n unused_setting) k unused_setting ≡ unused_setting
setting_at-replicate zero k = refl
setting_at-replicate (suc n) zero = refl
setting_at-replicate (suc n) (suc k) = setting_at-replicate n k

-- The start configuration monitors each available GPIO with the pull-up and the default debounce
-- time, and leaves every other GPIO unused.
pub setting_at-default_for :
    (available g : ℕ)
    → setting_at (default_for available) g ≡ (
        if ltb g gpio_count && bit available g
        then pull_up_setting default_debounce_ms
        else unused_setting)
unfolding default_for
setting_at-default_for available g =
    setting_at-set_all unused_config (mask_to_gpios available) _ g (mask_to_gpios_lt available)
    ∙ rw (elem-mask_to_gpios available g, setting_at-unused g)
  where
    setting_at-unused : (k : ℕ) → setting_at unused_config k ≡ unused_setting
    setting_at-unused k = setting_at-replicate gpio_count k
