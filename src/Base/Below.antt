-- ===== src/Base/Below.antt =====
-- A test on all numbers below a bound, which a table of constants is checked by.
use Prim.Native.Nat.{ℕ, zero, suc, ◌<◌}
use mathlib.Core.Path.{◌≡◌, ap}
use mathlib.Core.Bool.{Bool, true, ◌&&◌}
use native.Mathlib.Decide.{ℕ_discrete}
use native.Mathlib.Omega.{arith}

-- A test on every number below `n`.
abbrev pub all_below : (ℕ → Bool) → ℕ → Bool
all_below test zero = true
all_below test (suc n) = test n && all_below test n

pub all_below_at : (test : ℕ → Bool) (n i : ℕ) → all_below test n ≡ true → i < n → test i ≡ true
all_below_at test zero i h lt = absurd (omega arith)
all_below_at test (suc n) i h lt = elim (ℕ_discrete i n) [
  | yes e ↦ ground (arith, ap test e, h)
  | no ne ↦ all_below_at test n i (ground (arith, h)) (omega arith)
]
