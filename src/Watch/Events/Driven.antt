-- ===== src/Watch/Events/Driven.antt =====
-- `driven_outputs` of rust/src/watch.rs: the pins whose level a configuration write sets.
use hidpin.Base.{
  ℕ, ◌≡◌, not, ◌&&◌, ltb, elem, Ascending, elem-filter-range, filter-range-Ascending, arith, ◌∙◌,
}
use hidpin.Protocol.Layout.{gpio_count}
use hidpin.Protocol.Pins.{PinConfig, setting_at, setting_eq, is_output}
use hidpin.Watch.Events.{driven_outputs}

-- The listed pins, in ascending order, are exactly the GPIOs that are outputs under the new
-- configuration and whose setting the write changes.
pub elem-driven_outputs :
    (prev new : PinConfig) (g : ℕ)
    → Ascending 0 (driven_outputs prev new)
      × (elem g (driven_outputs prev new) ≡ (
          ltb g gpio_count
          && (is_output (setting_at new g)
              && not (setting_eq (setting_at prev g) (setting_at new g)))))
unfolding driven_outputs
elem-driven_outputs prev new g =
    let driven = λ (g : ℕ).
      is_output (setting_at new g) && not (setting_eq (setting_at prev g) (setting_at new g)) in
    (
      filter-range-Ascending driven 0 gpio_count,
      elem-filter-range driven g 0 gpio_count ∙ ground arith,
    )
