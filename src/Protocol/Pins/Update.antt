-- ===== src/Protocol/Pins/Update.antt =====
-- `PinConfig::with_pins` of rust/src/protocol.rs.
use hidpin.Base.{
  ℕ, ◌<◌, ◌≡◌, refl, ap, ◌∙◌, inl, inr, Bool-cases, true, false, ◌&&◌, List, [], ◌∷◌, Bool, ltb,
  leb, ◌==◌, if◌then◌else◌, length, length-set, set, get_or-set_self, get_or-set_ne, arith,
}
use hidpin.Error.{Result, ok, err}
use hidpin.Protocol.Layout.{gpio_count}
use hidpin.Protocol.Pins.{PinSetting, PinConfig, unused_setting, setting_at, with_pin, with_pins}

-- What the pairs say of one GPIO, the last one first; `s` where none names it.
abbrev pub latest : ℕ → PinSetting → List (ℕ × PinSetting) → PinSetting
latest g s [] = s
latest g s ((k, t) ∷ settings) = latest g (if k == g then t else s) settings

abbrev pub all_in_range : List (ℕ × PinSetting) → Bool
all_in_range [] = true
all_in_range ((k, t) ∷ settings) = ltb k gpio_count && all_in_range settings

-- The outcome of `with_pins` on a whole configuration, whatever it is.
abbrev pub Replaces : PinConfig → List (ℕ × PinSetting) → Result PinConfig → Type 0
Replaces c settings (ok d) =
    (all_in_range settings ≡ true)
    × (length d ≡ length c)
    × ((g : ℕ) → g < gpio_count → setting_at d g ≡ latest g (setting_at c g) settings)
Replaces c settings (err e) = all_in_range settings ≡ false

Replaces-set :
    (c : PinConfig) (k : ℕ) (t : PinSetting) (settings : List (ℕ × PinSetting))
    (r : Result PinConfig)
    → length c ≡ gpio_count
    → k < gpio_count
    → Replaces (set c k t) settings r
    → Replaces c ((k, t) ∷ settings) r
Replaces-set c k t settings (err e) len h w = ground arith
Replaces-set c k t settings (ok d) len h (range_ok, same, each) = (
  ground arith,
  same ∙ length-set c k t,
  λ g p. each g p ∙ ap (λ s. latest g s settings) (here g),
)
  where
    here : (g : ℕ) → setting_at (set c k t) g ≡ (if k == g then t else setting_at c g)
    here g =
        ground (arith, get_or-set_self c k t unused_setting, get_or-set_ne c k g t unused_setting)

-- `with_pins` succeeds exactly when every GPIO is below 30; then each pin has the last setting
-- that was given for it, and a pin that none was given for keeps its own.
pub with_pins-Replaces :
    (c : PinConfig) (settings : List (ℕ × PinSetting))
    → length c ≡ gpio_count
    → Replaces c settings (with_pins c settings)
unfolding with_pins with_pin
with_pins-Replaces c [] h = (refl, refl, λ g p. refl)
with_pins-Replaces c ((k, t) ∷ settings) h = elim (Bool-cases (leb gpio_count k)) [
  | inl e ↦ rw e (ground arith)
  | inr e ↦ rw e (
      Replaces-set c k t settings _ h (ground arith)
        (with_pins-Replaces (set c k t) settings (length-set c k t ∙ h)))
]
