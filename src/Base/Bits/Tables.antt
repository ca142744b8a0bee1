-- ===== src/Base/Bits/Tables.antt =====
-- Facts about one byte, each checked at every value.
use Prim.Native.Nat.{ℕ, zero, suc, ◌<◌}
use mathlib.Core.Path.{◌≡◌}
use mathlib.Core.Bool.{Bool, true, ◌&&◌}
use native.Mathlib.Omega.{arith}
use hidpin.Base.Tests.{◌==◌}

module _ (f g : ℕ → ℕ) where
  unfoldable pub equal_below : ℕ → Bool
  equal_below zero = true
  equal_below (suc n) = f n == g n && equal_below n

  pub equal_below_sound : (n : ℕ) → equal_below n ≡ true → (x : ℕ) → x < n → f x ≡ g x
  unfolding equal_below
  equal_below_sound zero e x h = absurd (omega arith)
  equal_below_sound (suc n) e x h = ground (arith, equal_below_sound n (ground arith) x)
