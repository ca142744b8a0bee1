-- ===== src/Watch/Clock.antt =====
-- `DeviceClock` of rust/src/watch.rs: device times as host times. Instants are in nanoseconds, from
-- the earliest instant that the host can express.
pub mod Estimate
use hidpin.Base.{
  ℕ, ◌+◌, ◌-◌, ◌*◌, ◌≤◌, ◌<◌, ◌≡◌, refl, Bool, Bool-cases, inl, inr, true, false, Option, none,
  some, ltb, leb, if◌then◌else◌, arith,
}

-- CLOCK_WINDOW
abbrev pub clock_window : ℕ
clock_window = 30_000_000_000

-- A host instant in nanoseconds and a device time in microseconds.
abbrev pub Sample : Type 0
Sample = ℕ × ℕ

pub record DeviceClock : Type 0 where
  pub cur : Option Sample
  pub prev : Option Sample
  pub cur_start : Option ℕ

abbrev pub new_clock : DeviceClock
new_clock = record { cur = none; prev = none; cur_start = none }

-- Whether `a` has a smaller host-minus-device difference than `b`: the comparison of the signed
-- differences, with its negative terms moved to the other side.
unfoldable pub closer : Sample → Sample → Bool
closer (a_host, a_device) (b_host, b_device) =
    ltb (a_host + b_device * 1000) (b_host + a_device * 1000)

-- `offset(base, to - from)`: the duration is added, or subtracted where the result can be
-- expressed.
unfoldable pub offset : ℕ → ℕ → ℕ → ℕ
offset base to from =
    if leb from to
    then base + (to - from) * 1000
    else if leb ((from - to) * 1000) base
    then base - (from - to) * 1000
    else base

fresh_window : Sample → DeviceClock → DeviceClock
fresh_window sample c = record { cur = some sample; prev = c.cur; cur_start = some sample.0 }

-- `host.duration_since(start)` is 0 if `start` is later.
add_to : Sample → Option Sample → Option ℕ → DeviceClock → DeviceClock
add_to sample none start c = fresh_window sample c
add_to sample (some cur) none c = fresh_window sample c
add_to sample (some cur) (some start) c =
    if ltb (sample.0 - start) clock_window
    then if closer sample cur then record c { cur = some sample } else c
    else fresh_window sample c

-- `DeviceClock::add`
unfoldable pub add : ℕ → ℕ → DeviceClock → DeviceClock
unfolding add_to fresh_window closer
add host device_us c = add_to (host, device_us) c.cur c.cur_start c

best_of : Sample → Option Sample → Sample
best_of cur none = cur
best_of cur (some prev) = if closer prev cur then prev else cur

-- `DeviceClock::instant_at`; `none` is the panic of a clock without a sample.
unfoldable pub instant_at : DeviceClock → ℕ → Option ℕ
unfolding best_of closer offset
instant_at c device_us = elim c.cur [
  | none ↦ none
  | some cur ↦ let best = best_of cur c.prev in some (offset best.0 device_us best.1)
]

-- `DeviceClock::at`, with the two clocks read at the call.
unfoldable pub wall_at : DeviceClock → ℕ → ℕ → ℕ → Option ℕ
unfolding instant_at
wall_at c device_us now wall = elim (instant_at c device_us) [
  | none ↦ none
  | some at ↦ some (if leb at now then wall - (now - at) else wall + (at - now))
]
