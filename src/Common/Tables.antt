-- ===== src/Common/Tables.antt =====
-- Facts about every value of a small range, by evaluation.

use Prim.Native.Nat.{ℕ, zero, suc, ◌<◌}
use mathlib.Core.Path.{◌≡◌}
use mathlib.Core.Bool.{Bool, true, false, ◌&&◌}
use native.Mathlib.Omega.{arith}

unfoldable pub each_below : ℕ → (ℕ → Bool) → Bool
each_below zero test = true
each_below (suc count) test = each_below count test && test count

-- What a table of values shows holds at each of them.
pub each_below_lem :
    (test : ℕ → Bool) (count : ℕ)
    → each_below count test ≡ true
    → (value : ℕ) → value < count
    → test value ≡ true
unfolding each_below
each_below_lem test zero table value h = absurd (omega arith)
each_below_lem test (suc count) table value h =
    grind (arith, each_below_lem test count (ground arith) value)

-- equality of Boolean values
abbrev pub same : Bool → Bool → Bool
same true b = b
same false true = false
same false false = true

pub same→eq : (a b : Bool) → same a b ≡ true → a ≡ b
same→eq a b h = ground arith

pub and_parts :
    (a b c d : Bool)
    → (a && (b && (c && d))) ≡ true
    → (a ≡ true) × (b ≡ true) × (c ≡ true) × (d ≡ true)
and_parts a b c d h = ground arith
