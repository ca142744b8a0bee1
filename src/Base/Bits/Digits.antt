-- ===== src/Base/Bits/Digits.antt =====
-- The lowest digit of `bit_and` and `bit_or`, and what is left of them above it.
use Prim.Native.Nat.{min, max, digits, bit_and-bitwise, bit_or-bitwise}
use Prim.Native.Nat.{ℕ, zero, suc, ◌+◌, ◌*◌, ◌/◌, ◌%◌, ◌≤◌, bit_and, bit_or}
use mathlib.Core.Path.{◌≡◌, refl, ap}
use native.Mathlib.Omega.{arith}

-- Any fuel that covers the left word gives the same digits.
module _ (rest : ℕ → ℕ) (join : ℕ → ℕ → ℕ) where
  same_digits : (a b j k : ℕ) → a ≤ j → a ≤ k → digits rest join j a b ≡ digits rest join k a b
  same_digits zero b zero zero p q = refl
  same_digits zero b zero (suc k) p q = refl
  same_digits zero b (suc j) zero p q = refl
  same_digits zero b (suc j) (suc k) p q = refl
  same_digits (suc a) b zero k p q = absurd (omega arith)
  same_digits (suc a) b (suc j) zero p q = absurd (omega arith)
  same_digits (suc a) b (suc j) (suc k) p q =
      ap (λ t. t * 2 + join (suc a % 2) (b % 2))
        (same_digits (suc a / 2) (b / 2) j k (omega arith) (omega arith))

pub bit_and_digit : (a b : ℕ) → bit_and a b ≡ bit_and (a / 2) (b / 2) * 2 + min (a % 2) (b % 2)
bit_and_digit zero b = omega (arith, bit_and-bitwise 0 b, bit_and-bitwise 0 (b / 2))
bit_and_digit (suc a) b = omega (
  arith,
  bit_and-bitwise (suc a) b,
  bit_and-bitwise (suc a / 2) (b / 2),
  same_digits (λ y. 0) min (suc a / 2) (b / 2) a (suc a / 2) (omega arith) (omega arith),
)

pub bit_or_digit : (a b : ℕ) → bit_or a b ≡ bit_or (a / 2) (b / 2) * 2 + max (a % 2) (b % 2)
bit_or_digit zero b = omega (arith, bit_or-bitwise 0 b, bit_or-bitwise 0 (b / 2))
bit_or_digit (suc a) b = omega (
  arith,
  bit_or-bitwise (suc a) b,
  bit_or-bitwise (suc a / 2) (b / 2),
  same_digits (λ y. y) max (suc a / 2) (b / 2) a (suc a / 2) (omega arith) (omega arith),
)
