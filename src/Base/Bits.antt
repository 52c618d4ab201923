-- ===== src/Base/Bits.antt =====
-- Facts about all values of a byte, by trying each of them.
use Prim.Native.Nat.{ℕ, zero, suc, ◌<◌}
use mathlib.Core.Path.{◌≡◌}
use mathlib.Core.Bool.{Bool, true, false}
use native.Mathlib.Omega.{arith}
use smart_lock_intercom.Base.Tests.{if◌then◌else◌}

module _ (test : ℕ → Bool) where
  -- Whether the numbers below the bound, from the largest on, pass the test.
  unfoldable pub passes_to : ℕ → Bool
  passes_to zero = true
  passes_to (suc top) = let others = passes_to top in if test top then others else false

  pub passes_to_lem : (bound i : ℕ) → passes_to bound ≡ true → i < bound → test i ≡ true
  unfolding passes_to
  passes_to_lem zero i passed below = absurd (omega arith)
  passes_to_lem (suc top) i passed below = ground (arith, passes_to_lem top i)
