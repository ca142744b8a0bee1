-- ===== src/Base/Bytes.antt =====
-- Little-endian words in a buffer of bytes: `to_le_bytes`, `from_le_bytes`, `copy_from_slice`.
use Prim.Native.Nat.{ℕ, zero, suc, ◌+◌, ◌-◌, ◌*◌, ◌/◌, ◌%◌, ◌^◌, ◌≤◌, ◌<◌}
use mathlib.Core.Path.{◌≡◌, refl, ap, ap₂, ◌∙◌}
use mathlib.Core.Logic.{◌⊎◌, inl}
use mathlib.Core.List.{List, [], ◌∷◌}
use native.Mathlib.Nat.{pow-suc}
use native.Mathlib.Omega.{arith}
use hidpin.Base.Lists.{length, All, get_or, set, length-set, get_or-set_self, get_or-set_ne}

abbrev pub byte_at : List ℕ → ℕ → ℕ
byte_at p i = get_or p i 0

-- `u16::wrapping_sub`
unfoldable pub wrapping_sub16 : ℕ → ℕ → ℕ
wrapping_sub16 a b = (a + 2 ^ 16 - b) % 2 ^ 16

-- The low `k` bytes of `x`, lowest first.
unfoldable pub to_le_bytes : ℕ → ℕ → List ℕ
to_le_bytes zero x = []
to_le_bytes (suc k) x = x % 256 ∷ to_le_bytes k (x / 256)

unfoldable pub from_le_bytes : List ℕ → ℕ
from_le_bytes [] = 0
from_le_bytes (b ∷ bs) = b + 256 * from_le_bytes bs

-- `p[at..at + n]`.
unfoldable pub slice : List ℕ → ℕ → ℕ → List ℕ
slice p i zero = []
slice p i (suc n) = byte_at p i ∷ slice p (suc i) n

-- `p[at..at + bytes.len()].copy_from_slice(bytes)`.
unfoldable pub write : List ℕ → ℕ → List ℕ → List ℕ
write p i [] = p
write p i (b ∷ bs) = write (set p i b) (suc i) bs

pub length-write : (p : List ℕ) (i : ℕ) (bs : List ℕ) → length (write p i bs) ≡ length p
unfolding write
length-write p i [] = refl
length-write p i (b ∷ bs) = length-write (set p i b) (suc i) bs ∙ length-set p i b

pub length-to_le_bytes : (k x : ℕ) → length (to_le_bytes k x) ≡ k
unfolding to_le_bytes
length-to_le_bytes zero x = refl
length-to_le_bytes (suc k) x = ap suc (length-to_le_bytes k (x / 256))

-- A write leaves the bytes outside its range alone.
pub byte_at-write_ne :
    (p : List ℕ) (i j : ℕ) (bs : List ℕ)
    → (j < i) ⊎ (i + length bs ≤ j)
    → byte_at (write p i bs) j ≡ byte_at p j
unfolding write
byte_at-write_ne p i j [] h = refl
byte_at-write_ne p i j (b ∷ bs) h =
    byte_at-write_ne (set p i b) (suc i) j bs later ∙ get_or-set_ne p i j b 0 (omega arith)
  where
    later : (j < suc i) ⊎ (suc i + length bs ≤ j)
    later = omega arith

-- Reading back what was written.
pub slice-write :
    (p : List ℕ) (i : ℕ) (bs : List ℕ)
    → i + length bs ≤ length p
    → slice (write p i bs) i (length bs) ≡ bs
unfolding write slice
slice-write p i [] h = refl
slice-write p i (b ∷ bs) h =
    ap₂ ◌∷◌ first (slice-write (set p i b) (suc i) bs (omega (arith, length-set p i b)))
  where
    first : byte_at (write (set p i b) (suc i) bs) i ≡ b
    first =
        byte_at-write_ne (set p i b) (suc i) i bs (inl (omega arith))
        ∙ get_or-set_self p i b 0 (omega arith)

-- A slice depends on its own bytes only.
pub slice-eq :
    (p q : List ℕ) (i n : ℕ)
    → ((j : ℕ) → i ≤ j → j < i + n → byte_at p j ≡ byte_at q j)
    → slice p i n ≡ slice q i n
unfolding slice
slice-eq p q i zero h = refl
slice-eq p q i (suc n) h =
    ap₂ ◌∷◌ (h i (omega arith) (omega arith))
      (slice-eq p q (suc i) n (λ j a b. h j (omega arith) (omega arith)))

pub from-to_le_bytes : (k x : ℕ) → x < 256 ^ k → from_le_bytes (to_le_bytes k x) ≡ x
unfolding to_le_bytes from_le_bytes
from-to_le_bytes zero x h = omega arith
from-to_le_bytes (suc k) x h =
    omega (arith, pow-suc 256 k, from-to_le_bytes k (x / 256) (omega (arith, pow-suc 256 k)))

abbrev pub AllBytes : List ℕ → Type 0
AllBytes = All (λ b. b < 256)

pub byte_at_lt : (p : List ℕ) (i : ℕ) → AllBytes p → byte_at p i < 256
byte_at_lt [] i h = omega arith
byte_at_lt (b ∷ p) zero h = h.0
byte_at_lt (b ∷ p) (suc i) h = byte_at_lt p i h.1

pub from_le_bytes-slice_lt :
    (p : List ℕ) (i n : ℕ) → AllBytes p → from_le_bytes (slice p i n) < 256 ^ n
unfolding from_le_bytes slice
from_le_bytes-slice_lt p i zero h = omega arith
from_le_bytes-slice_lt p i (suc n) h =
    omega (arith, pow-suc 256 n, byte_at_lt p i h, from_le_bytes-slice_lt p (suc i) n h)
