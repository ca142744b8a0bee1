-- ===== src/Base/Text.antt =====
-- Text as its UTF-8 bytes, as a Rust `String` keeps it.
use Prim.Native.Char.{code}
use Prim.Native.String.{String}
use Prim.Native.Nat.{ℕ, zero, suc, ◌+◌, ◌/◌, ◌%◌}
use mathlib.Core.Bool.{Bool, true, false, ◌&&◌}
use mathlib.Core.List.{List, [], ◌∷◌, ◌++◌}
use mathlib.Core.Path.{◌≡◌, refl}
use native.Mathlib.Omega.{arith}
use hidpin.Base.Tests.{◌==◌, ltb, if◌then◌else◌}

abbrev pub Text : Type 0
Text = List ℕ

-- A literal of the program; every one of them is ASCII.
unfoldable pub text : String → Text
text String.[] = []
text (String.◌∷◌ c s) = code c ∷ text s

digits_fuel : ℕ → ℕ → Text
digits_fuel zero n = []
digits_fuel (suc f) n =
    let higher = digits_fuel f (n / 10) in
    (if ltb n 10 then [] else higher) ++ ((b'0' + n % 10) ∷ [])

-- The `Display` of an unsigned integer. Every number has fewer digits than its value plus one.
unfoldable pub decimal : ℕ → Text
unfolding digits_fuel
decimal n = digits_fuel (suc n) n

-- `==` of two strings.
unfoldable pub text_eq : Text → Text → Bool
text_eq (c ∷ here) (d ∷ there) = c == d && text_eq here there
text_eq [] [] = true
text_eq (c ∷ here) [] = false
text_eq [] (d ∷ there) = false

-- `slice.join(separator)`.
unfoldable pub join : Text → List Text → Text
join sep [] = []
join sep (x ∷ []) = x
join sep (x ∷ y ∷ ys) = x ++ sep ++ join sep (y ∷ ys)

pub text_eq_sound : (here there : Text) → text_eq here there ≡ true → here ≡ there
unfolding text_eq
text_eq_sound (c ∷ here) (d ∷ there) same = ground (arith, text_eq_sound here there)
text_eq_sound [] [] same = refl
text_eq_sound (c ∷ here) [] same = ground arith
text_eq_sound [] (d ∷ there) same = ground arith

pub text_eq_refl : (xs : Text) → text_eq xs xs ≡ true
unfolding text_eq
text_eq_refl [] = refl
text_eq_refl (x ∷ xs) = ground (arith, text_eq_refl xs)
