-- ===== src/Device/Reports.antt =====
-- Status reports and outputs of rust/src/device.rs: the count of missed reports, and the words of
-- `set_outputs`.
use hidpin.Base.{
  zero, ℕ, suc, ◌+◌, ◌%◌, ◌^◌, ◌<◌, ◌≡◌, refl, ◌∙◌, Bool, true, false, ◌&&◌, ◌||◌, List, [], ◌∷◌,
  ltb, ◌==◌, if◌then◌else◌, bit_or, some, arith,
}
use native.Mathlib.Nat.{pow-suc}
use hidpin.Base.Bits.{bit, bit_or_lt, bit-bit_or, bit-pow, bit-none}
use hidpin.Base.Bytes.{wrapping_sub16}
use hidpin.Error.{ok}
use hidpin.Protocol.Layout.{gpio_count}
use hidpin.Protocol.Flags
use hidpin.Protocol.Status.{StatusReport}
use hidpin.Device.{reports_between, note_report, output_words}
use hidpin.Device.Monad.{Device}

-- Between two reports whose numbers are `k + 1` apart, with the wrap-around at 65536, there are
-- `k` reports, up to 65535.
reports_between-gap :
    (last k : ℕ) → last < 2 ^ 16 → k < 2 ^ 16 → reports_between ((last + suc k) % 2 ^ 16) last ≡ k
unfolding reports_between wrapping_sub16
reports_between-gap last k h g = omega arith

-- A report that was not asked for and comes after `k` reports that were not read, fewer than
-- 65536, adds `k` to the missed reports and is the last one read.
pub note_report-gap :
    {H : Type 0} (report : StatusReport) (d : Device H) (last k : ℕ)
    → Flags.contains report.reason Flags.host_request ≡ false
    → d.last_seq ≡ some last
    → last < 2 ^ 16
    → k < 2 ^ 16
    → report.seq ≡ (last + suc k) % 2 ^ 16
    → ((note_report report d).missed ≡ d.missed + k)
      × ((note_report report d).last_seq ≡ some report.seq)
note_report-gap report d last k unasked is_last l h next =
    rw (unasked, is_last, next, reports_between-gap last k l h) (refl, refl)

-- Whether a GPIO is listed, and whether it is listed as HIGH.
abbrev pub listed : ℕ → List (ℕ × Bool) → Bool
listed g [] = false
listed g ((gpio, high) ∷ levels) = gpio == g || listed g levels

abbrev pub listed_high : ℕ → List (ℕ × Bool) → Bool
listed_high g [] = false
listed_high g ((gpio, high) ∷ levels) = high && gpio == g || listed_high g levels

abbrev pub gpios_in_range : List (ℕ × Bool) → Bool
gpios_in_range [] = true
gpios_in_range ((gpio, high) ∷ levels) = ltb gpio gpio_count && gpios_in_range levels

or_pow-bit : (x gpio g : ℕ) → bit (bit_or x (2 ^ gpio)) g ≡ (bit x g || gpio == g)
or_pow-bit x gpio g = rw (bit-bit_or x (2 ^ gpio) g, bit-pow gpio g)

high_bit :
    (high : Bool) (value gpio g : ℕ)
    → bit (if high then bit_or value (2 ^ gpio) else value) g ≡ (bit value g || high && gpio == g)
high_bit true value gpio g = or_pow-bit value gpio g
high_bit false value gpio g = ground arith

words : (x a b c : Bool) → x ≡ (a || b) → (x || c) ≡ (a || (b || c))
words x a b c e = ground arith

pow_pos : (n : ℕ) → 0 < 2 ^ n
pow_pos zero = omega arith
pow_pos (suc n) = omega (arith, pow-suc 2 n, pow_pos n)

pow_lt : (m n : ℕ) → m < n → 2 ^ m < 2 ^ n
pow_lt m zero h = absurd (omega arith)
pow_lt zero (suc n) h = omega (arith, pow-suc 2 n, pow_pos n)
pow_lt (suc m) (suc n) h = omega (arith, pow-suc 2 m, pow-suc 2 n, pow_lt m n (omega arith))

high_bound :
    (high : Bool) (value gpio : ℕ)
    → value < 2 ^ 32
    → 2 ^ gpio < 2 ^ 32
    → (if high then bit_or value (2 ^ gpio) else value) < 2 ^ 32
high_bound true value gpio p q = bit_or_lt 32 value (2 ^ gpio) p q
high_bound false value gpio p q = p

output_words-bits :
    (levels : List (ℕ × Bool)) (mask value g : ℕ)
    → gpios_in_range levels ≡ true
    → mask < 2 ^ 32
    → value < 2 ^ 32
    → (m : ℕ) × (v : ℕ) × (output_words levels mask value ≡ ok (m, v))
      × (m < 2 ^ 32)
      × (v < 2 ^ 32)
      × (bit m g ≡ (bit mask g || listed g levels))
      × (bit v g ≡ (bit value g || listed_high g levels))
unfolding output_words
output_words-bits [] mask value g h p q = (mask, value, refl, p, q, ground arith, ground arith)
output_words-bits ((gpio, high) ∷ levels) mask value g h p q =
    let small : gpio < gpio_count = ground arith in
    let power : 2 ^ gpio < 2 ^ 32 = pow_lt gpio 32 (omega arith) in
    let (m, v, e, p', q', in_m, in_v) =
      output_words-bits levels (bit_or mask (2 ^ gpio))
        (if high then bit_or value (2 ^ gpio) else value) g (ground arith)
        (bit_or_lt 32 mask (2 ^ gpio) p power) (high_bound high value gpio q power) in
    (
      m,
      v,
      ground arith,
      p',
      q',
      in_m
          ∙ words (bit (bit_or mask (2 ^ gpio)) g) (bit mask g) (gpio == g) (listed g levels)
              (or_pow-bit mask gpio g),
      in_v
          ∙ words (bit (if high then bit_or value (2 ^ gpio) else value) g) (bit value g)
              (high && gpio == g) (listed_high g levels) (high_bit high value gpio g),
    )

-- The words of levels with GPIOs below 30: a mask of exactly the listed GPIOs, and a value of exactly
-- the GPIOs that are listed as HIGH at least once, each of 32 bits.
pub output_words-sends :
    (levels : List (ℕ × Bool)) (g : ℕ)
    → gpios_in_range levels ≡ true
    → (mask : ℕ) × (value : ℕ) × (output_words levels 0 0 ≡ ok (mask, value))
      × (mask < 2 ^ 32)
      × (value < 2 ^ 32)
      × (bit mask g ≡ listed g levels)
      × (bit value g ≡ listed_high g levels)
output_words-sends levels g h =
    let (m, v, e, p, q, in_m, in_v) =
      output_words-bits levels 0 0 g h (omega arith) (omega arith) in
    (m, v, e, p, q, in_m ∙ rw (bit-none g), in_v ∙ rw (bit-none g))
