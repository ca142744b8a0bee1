-- ===== src/Watch/Levels/Known.antt =====
-- What `WatchLoop` of rust/src/watch.rs knows of the pins after it absorbed the levels of a report.
use hidpin.Base.{
  true, false, not, ℕ, ◌<◌, ◌≡◌, refl, ap, ◌∙◌, inl, inr, Bool, Bool-cases, Option, none, some,
  List, [], ◌∷◌, ◌==◌, elem, differ, if◌then◌else◌, ◌||◌, arith,
}
use hidpin.Base.Bits.{bit}
use hidpin.Base.Maps.{Map, lookup, insert, retain, lookup-insert, lookup-retain}
use hidpin.Protocol.Layout.{gpio_count}
use hidpin.Protocol.Pins.{
  PinMode, unused, input, pull_up, pull_down, output, mode_eq, to_u8, setting_at, mask_to_gpios,
}
use hidpin.Protocol.Pins.Masks.{elem-mask_to_gpios}
use hidpin.Protocol.Status
use hidpin.Protocol.Status.{StatusReport, level_of}
use hidpin.Watch.Levels.{
  or_pull, reported_on, is_active_low, compare_known, learn_pin, learn_pins, absorb_levels,
  announce,
}
use hidpin.Watch.Loop.{WatchLoop}

-- Whether a level counts as ON: HIGH does for an active-high pin, and LOW for an active-low one. What
-- the application said of the pin decides; else a pin is active low if it has a pull-up.
abbrev pub counts_on : Option Bool → PinMode → Bool → Bool
counts_on (some true) mode level = not level
counts_on (some false) mode level = level
counts_on none pull_up level = not level
counts_on none unused level = level
counts_on none input level = level
counts_on none pull_down level = level
counts_on none output level = level

counts_on-case :
    (said : Option Bool) (mode : PinMode) (level : Bool)
    → differ level (or_pull said (mode_eq mode pull_up)) ≡ counts_on said mode level
unfolding or_pull mode_eq to_u8
counts_on-case (some true) mode true = refl
counts_on-case (some true) mode false = refl
counts_on-case (some false) mode true = refl
counts_on-case (some false) mode false = refl
counts_on-case none unused true = refl
counts_on-case none unused false = refl
counts_on-case none input true = refl
counts_on-case none input false = refl
counts_on-case none pull_up true = refl
counts_on-case none pull_up false = refl
counts_on-case none pull_down true = refl
counts_on-case none pull_down false = refl
counts_on-case none output true = refl
counts_on-case none output false = refl

module _ {E H : Type 0} where
  -- What a step of `absorb` keeps: the polarity of every pin.
  SamePolarity : WatchLoop E H → WatchLoop E H → Type 0
  SamePolarity v w = (v.active_low ≡ w.active_low) × (v.config ≡ w.config)

  compare_known-same :
      (was : Option Bool) (g : ℕ) (on level : Bool) (learned : Map Bool) (w : WatchLoop E H)
      → SamePolarity (compare_known was g on level (learned, w)).1 w
        × ((compare_known was g on level (learned, w)).1.known ≡ w.known)
  unfolding SamePolarity compare_known
  compare_known-same none g on level learned w = ((refl, refl), refl)
  compare_known-same (some was) g on level learned w = elim (Bool-cases (differ was on)) [
    | inl e ↦ rw e ((refl, refl), refl)
    | inr e ↦ rw e ((refl, refl), refl)
  ]

  learn_pin-known :
      (report : StatusReport) (g : ℕ) (learned : Map Bool) (w : WatchLoop E H)
      → SamePolarity (learn_pin report g (learned, w)).1 w
        × ((learn_pin report g (learned, w)).1.known ≡ insert g (reported_on report w g) w.known)
  unfolding SamePolarity learn_pin
  learn_pin-known report g learned w =
      let ((p, q), k) =
        compare_known-same (lookup g w.known) g (reported_on report w g) (level_of report g) learned
          w in
      ((p, q), ap (insert g (reported_on report w g)) k)

  reported_on-same :
      (report : StatusReport) (v w : WatchLoop E H) (g : ℕ)
      → SamePolarity v w
      → reported_on report v g ≡ reported_on report w g
  unfolding SamePolarity reported_on is_active_low
  reported_on-same report v w g (p, q) = rw (p, q)

  -- After the levels of some pins, these are known as reported and the others as before.
  learn_pins-known :
      (report : StatusReport) (gs : List ℕ) (acc : Map Bool × WatchLoop E H) (g : ℕ)
      → lookup g (learn_pins report gs acc).1.known
        ≡ (if elem g gs then some (reported_on report acc.1 g) else lookup g acc.1.known)
  unfolding learn_pins
  learn_pins-known report [] acc g = refl
  learn_pins-known report (k ∷ ks) acc g =
      let (same, step) = learn_pin-known report k acc.0 acc.1 in
      learn_pins-known report ks (learn_pin report k acc) g
      ∙ rw
          (
            reported_on-same report (learn_pin report k acc).1 acc.1 g same,
            step,
            lookup-insert k g (reported_on report acc.1 k) acc.1.known,
          )
          (by_pin k (reported_on report acc.1))
    where
      by_pin :
          (k : ℕ) (on : ℕ → Bool)
          → (if elem g ks
              then some (on g)
              else if k == g
              then some (on k)
              else lookup g acc.1.known)
            ≡ (if k == g || elem g ks then some (on g) else lookup g acc.1.known)
      by_pin k on = ground arith

  absorb_levels-known :
      (report : StatusReport) (w : WatchLoop E H)
      → (absorb_levels report w).known
        ≡ retain
            (Status.is_monitored report)
            (learn_pins report (mask_to_gpios report.monitored) ([], w)).1.known
  unfolding absorb_levels
  absorb_levels-known report w =
      announce-known (learn_pins report (mask_to_gpios report.monitored) ([], w)).0 _
    where
      announce-known : (m : Map Bool) (v : WatchLoop E H) → (announce m v).known ≡ v.known
      announce-known [] v = refl
      announce-known (p ∷ ps) v = refl

  reported_on-counts_on :
      (report : StatusReport) (w : WatchLoop E H) (g : ℕ)
      → reported_on report w g
        ≡ counts_on (lookup g w.active_low) (setting_at w.config g).mode (bit report.levels g)
  unfolding reported_on is_active_low level_of
  reported_on-counts_on report w g =
      counts_on-case (lookup g w.active_low) (setting_at w.config g).mode (bit report.levels g)

  -- After the levels of a report, the watcher knows the ON/OFF of exactly the pins that the report
  -- calls monitored, whatever it knew before. HIGH is ON, and LOW is ON for a pin that the
  -- application calls active low or, if it says nothing of the pin, that has a pull-up.
  pub lookup-absorb_levels :
      (report : StatusReport) (w : WatchLoop E H) (g : ℕ)
      → g < gpio_count
      → lookup g (absorb_levels report w).known ≡ (
          if bit report.monitored g
          then some
              (counts_on (lookup g w.active_low) (setting_at w.config g).mode (bit report.levels g))
          else none)
  unfolding Status.is_monitored
  lookup-absorb_levels report w g h =
      ap (lookup g) (absorb_levels-known report w)
      ∙ lookup-retain (bit report.monitored) g _
      ∙ ground (
        arith,
        reported_on-counts_on report w g,
        learn_pins-known report (mask_to_gpios report.monitored) ([], w) g,
        elem-mask_to_gpios report.monitored g,
      )
