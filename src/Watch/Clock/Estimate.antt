-- ===== src/Watch/Clock/Estimate.antt =====
-- The host time that `DeviceClock` of rust/src/watch.rs gives the sample it was given last.
use hidpin.Base.{
  ℕ, ◌+◌, ◌-◌, ◌*◌, ◌≤◌, ◌≡◌, refl, inl, inr, Bool, Bool-cases, true, false, Option, none, some,
  ltb, if◌then◌else◌, arith,
}
use hidpin.Watch.Clock.{
  DeviceClock, Sample, add, add_to, fresh_window, best_of, instant_at, offset, closer, clock_window,
}

-- A sample of a device that has not run for longer than the host's clock can express.
abbrev pub Expressible : Sample → Type 0
Expressible (host, device) = device * 1000 ≤ host

abbrev pub AllExpressible : Option Sample → Type 0
AllExpressible none = Unit
AllExpressible (some s) = Expressible s

-- A sample that has no greater difference than another gives the other's device time no later.
offset_le :
    (best sample : Sample)
    → Expressible best
    → best.0 + sample.1 * 1000 ≤ sample.0 + best.1 * 1000
    → offset best.0 sample.1 best.1 ≤ sample.0
unfolding offset
offset_le (b, x) (h, d) e le = ground arith

AtLeastAsClose : Sample → Sample → Type 0
AtLeastAsClose a b = a.0 + b.1 * 1000 ≤ b.0 + a.1 * 1000

best_of-close :
    (cur sample : Sample) (prev : Option Sample)
    → AtLeastAsClose cur sample
    → Expressible cur
    → AllExpressible prev
    → AtLeastAsClose (best_of cur prev) sample × Expressible (best_of cur prev)
unfolding best_of closer AtLeastAsClose
best_of-close cur sample none le e p = (le, e)
best_of-close (c, x) (h, d) (some (q, y)) le e p = ground arith

instant_at-close :
    (c : DeviceClock) (cur sample : Sample)
    → c.cur ≡ some cur
    → AtLeastAsClose cur sample
    → Expressible cur
    → AllExpressible c.prev
    → (at : ℕ) × (instant_at c sample.1 ≡ some at) × (at ≤ sample.0)
unfolding instant_at AtLeastAsClose
instant_at-close c cur sample is_cur le e p =
    let (le', e') = best_of-close cur sample c.prev le e p in
    (
      offset (best_of cur c.prev).0 sample.1 (best_of cur c.prev).1,
      rw is_cur,
      offset_le (best_of cur c.prev) sample e' le',
    )

not_closer : (a b : Sample) → closer a b ≡ false → b.0 + a.1 * 1000 ≤ a.0 + b.1 * 1000
unfolding closer
not_closer (x, d) (y, f) h = ground arith

-- The sample of the window that goes on is the closer one, and a new window starts with the sample.
within-close :
    (inside : Bool) (sample cur : Sample) (c : DeviceClock)
    → c.cur ≡ some cur
    → Expressible sample
    → Expressible cur
    → AllExpressible c.prev
    → let d =
        if inside
        then if closer sample cur then record c { cur = some sample } else c
        else fresh_window sample c in
      (best : Sample) × (d.cur ≡ some best)
      × AtLeastAsClose best sample
      × Expressible best
      × AllExpressible d.prev
unfolding fresh_window AtLeastAsClose
within-close false sample cur c is_cur e ec ep = (sample, refl, omega arith, e, rw is_cur ec)
within-close true sample cur c is_cur e ec ep = elim (Bool-cases (closer sample cur)) [
  | inl nearer ↦ rw nearer (sample, refl, omega arith, e, ep)
  | inr further ↦ rw further (cur, is_cur, not_closer sample cur further, ec, ep)
]

add_to-close :
    (sample : Sample) (cur : Option Sample) (start : Option ℕ) (c : DeviceClock)
    → c.cur ≡ cur
    → Expressible sample
    → AllExpressible cur
    → AllExpressible c.prev
    → (best : Sample) × ((add_to sample cur start c).cur ≡ some best)
      × AtLeastAsClose best sample
      × Expressible best
      × AllExpressible (add_to sample cur start c).prev
unfolding add_to fresh_window AtLeastAsClose
add_to-close sample none start c is_cur e ec ep = (sample, refl, omega arith, e, rw is_cur tt)
add_to-close sample (some cur) none c is_cur e ec ep = (sample, refl, omega arith, e, rw is_cur ec)
add_to-close sample (some cur) (some start) c is_cur e ec ep =
    within-close (ltb (sample.0 - start) clock_window) sample cur c is_cur e ec ep

-- The host time that the clock gives a device time that was just added exists and is not after
-- the moment at which it was received, whatever samples came before: all samples are of devices
-- that have not run for longer than the host's clock can express.
pub instant_at-add :
    (c : DeviceClock) (host device : ℕ)
    → Expressible (host, device)
    → AllExpressible c.cur
    → AllExpressible c.prev
    → (at : ℕ) × (instant_at (add host device c) device ≡ some at) × (at ≤ host)
unfolding add
instant_at-add c host device e ec ep =
    let (best, is_cur, close, eb, ep') =
      add_to-close (host, device) c.cur c.cur_start c refl e ec ep in
    instant_at-close (add_to (host, device) c.cur c.cur_start c) best (host, device) is_cur close eb
      ep'
