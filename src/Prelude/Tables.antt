-- ===== src/Prelude/Tables.antt =====
-- Facts about a byte, checked at every value.
use Prim.Native.Nat.{ℕ, zero, suc, ◌<◌}
use mathlib.Core.Path.{◌≡◌}
use mathlib.Core.Bool.{Bool, true, cond, false}
use native.Mathlib.Omega.{arith}

-- The test passes on every number below the bound.
unfoldable pub table : (ℕ → Bool) → ℕ → Bool
table test zero = true
table test (suc bound) = let others = table test bound in cond (test bound) others false

pub table_entry :
    (test : ℕ → Bool) (bound entry : ℕ)
    → entry < bound
    → table test bound ≡ true
    → test entry ≡ true
unfolding table
table_entry test zero entry inside checked = elim inside [ ]
table_entry test (suc bound) entry inside checked = ground (arith, table_entry test bound entry)
