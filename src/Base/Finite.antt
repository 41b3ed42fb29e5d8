-- ===== src/Base/Finite.antt =====
-- Properties of all the numbers below a bound, checked by evaluation.
use Prim.Native.Nat.{ℕ, zero, suc, ◌<◌}
use mathlib.Core.Path.{◌≡◌}
use mathlib.Core.Logic.{inl, inr}
use mathlib.Core.Bool.{Bool, true, ◌&&◌}
use native.Mathlib.Omega.{arith}
use ron.Base.Tests.{◌==◌, Bool-cases}

unfoldable pub all_below : (n : ℕ) → (ℕ → Bool) → Bool
all_below zero f = true
all_below (suc n) f = f n && all_below n f

pub all_below-holds : (n : ℕ) (f : ℕ → Bool) (b : ℕ) → all_below n f ≡ true → b < n → f b ≡ true
unfolding all_below
all_below-holds zero f b h l = absurd (omega arith)
all_below-holds (suc n) f b h l = elim (Bool-cases (b == n)) [
  | inl t ↦ let same : b ≡ n = ground arith in rw same (ground arith)
  | inr t ↦ all_below-holds n f b (ground arith) (ground arith)
]
