-- ===== src/Base/Parse.antt =====
-- What the program uses of the text functions of the standard library. Text is its UTF-8 bytes.
use Prim.Native.Nat.{ℕ, zero, suc, ◌+◌, ◌-◌, ◌*◌}
use mathlib.Core.Bool.{Bool, true, false, ◌&&◌}
use mathlib.Core.List.{List, [], ◌∷◌, ◌++◌, map}
use mathlib.Core.Option.{Option, none, some}
use hidpin.Base.Lists.{length, range}
use hidpin.Base.Tests.{◌==◌, ltb, leb, if◌then◌else◌}
use hidpin.Base.Text.{Text}

-- `str::strip_prefix`
unfoldable pub strip_prefix : Text → Text → Option Text
strip_prefix [] xs = some xs
strip_prefix (p ∷ prefix) [] = none
strip_prefix (p ∷ prefix) (x ∷ xs) =
    let rest = strip_prefix prefix xs in if p == x then rest else none

unfoldable pub starts_with : Text → Text → Bool
starts_with prefix xs = elim (strip_prefix prefix xs) [ none ↦ false | some rest ↦ true ]

-- The encodings of the characters with the property White_Space.
abbrev white_space : List Text
white_space =
    map (λ c. c ∷ []) (0x20 ∷ range 0x09 5)
    ++ (map (λ c. 0xE2 ∷ (0x80 ∷ (c ∷ []))) (0xA8 ∷ (0xA9 ∷ (0xAF ∷ range 0x80 11)))
        ++ ((0xC2 ∷ (0x85 ∷ []))
            ∷ ((0xC2 ∷ (0xA0 ∷ []))
                ∷ ((0xE1 ∷ (0x9A ∷ (0x80 ∷ [])))
                    ∷ ((0xE2 ∷ (0x81 ∷ (0x9F ∷ []))) ∷ ((0xE3 ∷ (0x80 ∷ (0x80 ∷ []))) ∷ []))))))

reversed_onto : Text → Text → Text
reversed_onto [] acc = acc
reversed_onto (x ∷ xs) acc = reversed_onto xs (x ∷ acc)

unfoldable pub reversed : Text → Text
unfolding reversed_onto
reversed xs = reversed_onto xs []

strip_any : List Text → Text → Option Text
strip_any [] xs = none
strip_any (prefix ∷ prefixes) xs = elim (strip_prefix prefix xs) [
  | some rest ↦ some rest
  | none ↦ strip_any prefixes xs
]

-- Each round strips a character; no text has more of them than bytes.
strip_all : ℕ → List Text → Text → Text
strip_all zero prefixes xs = xs
strip_all (suc n) prefixes xs = elim (strip_any prefixes xs) [
  | some rest ↦ strip_all n prefixes rest
  | none ↦ xs
]

-- `str::trim`
unfoldable pub trim : Text → Text
unfolding strip_all strip_any reversed_onto
trim xs =
    let start = strip_all (length xs) white_space xs in
    reversed (strip_all (length start) (map reversed white_space) (reversed start))

-- The value of a digit.
unfoldable pub digit_value : ℕ → Option ℕ
digit_value c =
    if leb b'0' c && leb c b'9'
    then some (c - b'0')
    else if leb b'a' c && leb c b'z'
    then some (c - b'a' + 10)
    else if leb b'A' c && leb c b'Z'
    then some (c - b'A' + 10)
    else none

-- Digits after the value so far, which must stay below the bound.
unfoldable pub digits_onto : ℕ → ℕ → ℕ → Text → Option ℕ
digits_onto radix bound value [] = some value
digits_onto radix bound value (c ∷ cs) = elim (digit_value c) [
  | none ↦ none
  | some d ↦
      let value' = value * radix + d in
      let rest = digits_onto radix bound value' cs in
      if ltb d radix && ltb value' bound then rest else none
]

unfoldable pub digits : ℕ → ℕ → Text → Option ℕ
digits radix bound [] = none
digits radix bound (c ∷ cs) = digits_onto radix bound 0 (c ∷ cs)

-- `from_str_radix` and `parse` of an unsigned type with values below the bound: digits, with a plus
-- sign in front or without.
unfoldable pub from_str_radix : ℕ → ℕ → Text → Option ℕ
from_str_radix radix bound [] = none
from_str_radix radix bound (c ∷ cs) =
    if c == b'+' then digits radix bound cs else digits radix bound (c ∷ cs)

unfoldable pub prepend : ℕ → List Text → List Text
prepend c [] = (c ∷ []) ∷ []
prepend c (line ∷ lines) = (c ∷ line) ∷ lines

-- `str::lines`
unfoldable pub lines : Text → List Text
lines [] = []
lines (c ∷ cs) =
    let rest = lines cs in
    if c == 10
    then [] ∷ rest
    else if c == 13 && starts_with (10 ∷ []) cs
    then rest
    else prepend c rest

-- `str::split` at a byte
unfoldable pub split : ℕ → Text → List Text
split at [] = [] ∷ []
split at (c ∷ cs) = let rest = split at cs in if c == at then [] ∷ rest else prepend c rest

-- The order of two texts; whether the first is not after the second.
unfoldable pub text_le : Text → Text → Bool
text_le [] ys = true
text_le (x ∷ xs) [] = false
text_le (x ∷ xs) (y ∷ ys) =
    let rest = text_le xs ys in if ltb x y then true else if x == y then rest else false
