-- ===== src/Base/Bits.antt =====
-- One bit of a machine word, and the bitwise operations read through it.
mod Digits
pub mod Tables
use Digits.{bit_and_digit, bit_or_digit}
use Prim.Native.Nat.{
  ℕ, zero, suc, ◌+◌, ◌-◌, ◌*◌, ◌/◌, ◌%◌, ◌^◌, ◌≤◌, ◌<◌, bit_and, bit_or, bit_and-bitwise,
  bit_or-bitwise,
}
use mathlib.Core.Path.{◌≡◌, refl, ap, ◌∙◌, sym}
use mathlib.Core.Bool.{Bool, true, false, not, ◌&&◌, ◌||◌}
use native.Mathlib.Nat.{pow-suc, div-div-eq-div-mul, mul_comm, one-le-pow, div-eq_of_lt}
use native.Mathlib.Omega.{arith}
use hidpin.Base.Tests.{◌==◌}

-- `x >> i & 1 != 0`.
unfoldable pub bit : ℕ → ℕ → Bool
bit x i = x / 2 ^ i % 2 == 1

-- `!x` of a 32-bit word.
unfoldable pub complement32 : ℕ → ℕ
complement32 x = 2 ^ 32 - 1 - x

pub bit-zero : (x : ℕ) → bit x 0 ≡ (x % 2 == 1)
unfolding bit
bit-zero x = ground arith

pub bit-suc : (x i : ℕ) → bit x (suc i) ≡ bit (x / 2) i
unfolding bit
bit-suc x i = rw div-div-eq-div-mul (rw (pow-suc 2 i, mul_comm 2 (2 ^ i)))

pub bit-bit_and : (a b i : ℕ) → bit (bit_and a b) i ≡ (bit a i && bit b i)
bit-bit_and a b zero =
    rw (bit-zero (bit_and a b), bit-zero a, bit-zero b) (ground (arith, bit_and_digit a b))
bit-bit_and a b (suc i) =
    rw (bit-suc (bit_and a b), bit-suc a, bit-suc b, half) (bit-bit_and (a / 2) (b / 2) i)
  where
    half : bit_and a b / 2 ≡ bit_and (a / 2) (b / 2)
    half = omega (arith, bit_and_digit a b)

pub bit-bit_or : (a b i : ℕ) → bit (bit_or a b) i ≡ (bit a i || bit b i)
bit-bit_or a b zero =
    rw (bit-zero (bit_or a b), bit-zero a, bit-zero b) (ground (arith, bit_or_digit a b))
bit-bit_or a b (suc i) =
    rw (bit-suc (bit_or a b), bit-suc a, bit-suc b, half) (bit-bit_or (a / 2) (b / 2) i)
  where
    half : bit_or a b / 2 ≡ bit_or (a / 2) (b / 2)
    half = omega (arith, bit_or_digit a b)

pub bit-none : (i : ℕ) → bit 0 i ≡ false
bit-none zero = rw bit-zero
bit-none (suc i) = rw bit-suc (bit-none i)

-- `1 << j` has the one bit `j`.
pub bit-pow : (j i : ℕ) → bit (2 ^ j) i ≡ (j == i)
bit-pow zero zero = rw bit-zero
bit-pow zero (suc i) = rw bit-suc (bit-none i ∙ ground arith)
bit-pow (suc j) zero = rw bit-zero (ground (arith, pow-suc 2 j))
bit-pow (suc j) (suc i) = rw (bit-suc, half) (bit-pow j i ∙ ground arith)
  where
    half : 2 ^ suc j / 2 ≡ 2 ^ j
    half = omega (arith, pow-suc 2 j)

-- A word below `2 ^ n` has no bit from `n` on.
pub bit_above : (n x i : ℕ) → x < 2 ^ n → n ≤ i → bit x i ≡ false
bit_above zero x i h k = let e : x ≡ 0 = omega arith in rw e (bit-none i)
bit_above (suc n) x zero h k = absurd (omega arith)
bit_above (suc n) x (suc i) h k =
    rw bit-suc (bit_above n (x / 2) i (omega (arith, pow-suc 2 n)) (omega arith))

eq_of_halves : (a b : ℕ) → (a % 2 == 1) ≡ (b % 2 == 1) → a / 2 ≡ b / 2 → a ≡ b
eq_of_halves a b low half = ground arith

-- Words with the same bits are equal.
pub eq_of_bits : (n a b : ℕ) → a < 2 ^ n → b < 2 ^ n → ((i : ℕ) → i < n → bit a i ≡ bit b i) → a ≡ b
eq_of_bits zero a b p q h = omega arith
eq_of_bits (suc n) a b p q h = eq_of_halves a b low (
    eq_of_bits n (a / 2) (b / 2) (omega (arith, pow-suc 2 n)) (omega (arith, pow-suc 2 n))
      (λ i k. sym (bit-suc a i) ∙ h (suc i) (omega arith) ∙ bit-suc b i))
  where
    low : (a % 2 == 1) ≡ (b % 2 == 1)
    low = sym (bit-zero a) ∙ h 0 (omega arith) ∙ bit-zero b

-- `bit_or` and `bit_and` stay within the width of their words.
pub bit_or_lt : (n a b : ℕ) → a < 2 ^ n → b < 2 ^ n → bit_or a b < 2 ^ n
bit_or_lt zero a b p q = omega (arith, bit_or_digit a b, both_zero)
  where
    both_zero : bit_or a b ≡ 0
    both_zero = let e : a ≡ 0 = omega arith in let f : b ≡ 0 = omega arith in rw (e, f)
bit_or_lt (suc n) a b p q = omega (
  arith,
  bit_or_digit a b,
  pow-suc 2 n,
  bit_or_lt n (a / 2) (b / 2) (omega (arith, pow-suc 2 n)) (omega (arith, pow-suc 2 n)),
)

-- An `or` with bits above those of the left side is a sum.
pub bit_or_above : (n a b : ℕ) → a < 2 ^ n → bit_or a (b * 2 ^ n) ≡ a + b * 2 ^ n
bit_or_above zero a b h =
    let e : a ≡ 0 = omega arith in rw e (omega (arith, bit_or-bitwise 0 (b * 2 ^ 0)))
bit_or_above (suc n) a b h = rw double (
    omega (
      arith,
      bit_or_digit a (2 * (b * 2 ^ n)),
      ap (bit_or (a / 2)) half,
      bit_or_above n (a / 2) b (omega (arith, pow-suc 2 n)),
    ))
  where
    double : b * 2 ^ suc n ≡ 2 * (b * 2 ^ n)
    double = rw (pow-suc 2 n) (grind arith)

    half : 2 * (b * 2 ^ n) / 2 ≡ b * 2 ^ n
    half = omega arith

bit_or_comm_fuel : (fuel a b : ℕ) → a ≤ fuel → b ≤ fuel → bit_or a b ≡ bit_or b a
bit_or_comm_fuel zero a b p q =
    let e : a ≡ 0 = omega arith in let f : b ≡ 0 = omega arith in rw (e, f) refl
bit_or_comm_fuel (suc fuel) a b p q = omega (
  arith,
  bit_or_digit a b,
  bit_or_digit b a,
  bit_or_comm_fuel fuel (a / 2) (b / 2) (omega arith) (omega arith),
)

pub bit_or_comm : (a b : ℕ) → bit_or a b ≡ bit_or b a
bit_or_comm a b = bit_or_comm_fuel (a + b) a b (omega arith) (omega arith)

-- The same for bits above those of the right side.
pub bit_or_below : (n a b : ℕ) → a < 2 ^ n → bit_or (b * 2 ^ n) a ≡ a + b * 2 ^ n
bit_or_below n a b h = bit_or_comm (b * 2 ^ n) a ∙ bit_or_above n a b h

-- A word masked by another has no more bits.
pub bit_and_lt : (n a b : ℕ) → a < 2 ^ n → bit_and a b < 2 ^ n
bit_and_lt zero a b h = let e : a ≡ 0 = omega arith in rw e (omega (arith, bit_and-bitwise 0 b))
bit_and_lt (suc n) a b h = omega (
  arith,
  bit_and_digit a b,
  pow-suc 2 n,
  bit_and_lt n (a / 2) (b / 2) (omega (arith, pow-suc 2 n)),
)

bit_and_zero : (fuel a : ℕ) → a ≤ fuel → bit_and a 0 ≡ 0
bit_and_zero zero a h = let e : a ≡ 0 = omega arith in rw e (omega (arith, bit_and-bitwise 0 0))
bit_and_zero (suc fuel) a h =
    omega (arith, bit_and_digit a 0, bit_and_zero fuel (a / 2) (omega arith))

-- A mask of 2 bits.
pub bit_and-mask2 : (a : ℕ) → bit_and a 3 < 4
bit_and-mask2 a = omega (
  arith,
  bit_and_digit a 3,
  bit_and_digit (a / 2) 1,
  bit_and_zero (a / 2 / 2) (a / 2 / 2) (omega arith),
)

pub bit_and-mod4 : (a : ℕ) → bit_and a 3 ≡ a % 4
bit_and-mod4 a = omega (
  arith,
  bit_and_digit a 3,
  bit_and_digit (a / 2) 1,
  bit_and_zero (a / 2 / 2) (a / 2 / 2) (omega arith),
)

bit-complement : (n x i : ℕ) → x < 2 ^ n → i < n → bit (2 ^ n - 1 - x) i ≡ not (bit x i)
bit-complement zero x i h k = absurd (omega arith)
bit-complement (suc n) x zero h k =
    rw (bit-zero (2 ^ suc n - 1 - x), bit-zero x) (ground (arith, pow-suc 2 n))
bit-complement (suc n) x (suc i) h k =
    rw (bit-suc (2 ^ suc n - 1 - x), bit-suc x, half)
      (bit-complement n (x / 2) i (omega (arith, pow-suc 2 n)) (omega arith))
  where
    half : (2 ^ suc n - 1 - x) / 2 ≡ 2 ^ n - 1 - x / 2
    half = omega (arith, pow-suc 2 n, one-le-pow n 2)

pub bit-complement32 : (x i : ℕ) → x < 2 ^ 32 → i < 32 → bit (complement32 x) i ≡ not (bit x i)
unfolding complement32
bit-complement32 x i h k = bit-complement 32 x i h k
