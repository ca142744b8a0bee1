-- ===== src/Base/Maps.antt =====
-- Maps from numbers as association lists: the `BTreeMap`s and `HashMap`s of the program.
use Prim.Native.Nat.{ℕ}
use mathlib.Core.Path.{◌≡◌, refl}
use mathlib.Core.Bool.{Bool}
use mathlib.Core.List.{List, [], ◌∷◌}
use mathlib.Core.Option.{Option, none, some}
use native.Mathlib.Omega.{arith}
use hidpin.Base.Tests.{◌==◌, ltb, if◌then◌else◌, Bool-cases}

abbrev pub Map {ℓ} : Type ℓ → Type ℓ
Map V = List (ℕ × V)

module _ {ℓ} {V : Type ℓ} where
  unfoldable pub lookup : ℕ → Map V → Option V
  lookup k [] = none
  lookup k ((j, v) ∷ m) = if j == k then some v else lookup k m

  -- Keys stay in ascending order.
  unfoldable pub insert : ℕ → V → Map V → Map V
  insert k v [] = (k, v) ∷ []
  insert k v (first ∷ m) =
      let rest = insert k v m in
      if first.0 == k
      then (k, v) ∷ m
      else if ltb k first.0
      then (k, v) ∷ (first ∷ m)
      else first ∷ rest

  -- Keeps the keys that pass the test.
  unfoldable pub retain : (ℕ → Bool) → Map V → Map V
  retain f [] = []
  retain f ((j, v) ∷ m) = let rest = retain f m in if f j then (j, v) ∷ rest else rest

  pub lookup-insert :
      (key other : ℕ) (v : V) (m : Map V)
      → lookup other (insert key v m) ≡ (if key == other then some v else lookup other m)
  unfolding lookup insert
  lookup-insert key other v [] = refl
  lookup-insert key other v (first ∷ m) = ground (arith, lookup-insert key other v m)

  pub lookup-retain :
      (f : ℕ → Bool) (k : ℕ) (m : Map V)
      → lookup k (retain f m) ≡ (if f k then lookup k m else none)
  unfolding lookup retain
  lookup-retain f k [] = ground arith
  lookup-retain f k ((i, w) ∷ m) = ground (arith, lookup-retain f k m, Bool-cases (f i))
