-- ===== src/Cfs/Blocks/Range.antt =====
-- How many blocks of a file a range touches, in c_node/fs/cfs.c.
use native.Mathlib.Nat.{div-add-mod, mod-lt}
use sbpfs.Common.{ℕ, ◌+◌, ◌-◌, ◌*◌, ◌/◌, ◌%◌, ◌≤◌, ◌<◌, ◌≡◌, arith}
use sbpfs.Common.Mem.{u64_mod}
use sbpfs.Cfs.State.{add64, sub64, blocksize}
use sbpfs.Cfs.Blocks.{up_div, touched}

pieces_hold : (c a b : ℕ) → 0 < b → c + 1 ≡ a + b → a ≤ c / b * b
pieces_hold c a b pos e = omega (arith, div-add-mod c b, mod-lt c pos)

pieces_tight : (c a b : ℕ) → 0 < b → c + 1 ≡ a + b → c / b * b < a + b
pieces_tight c a b pos e = omega (arith, div-add-mod c b, mod-lt c pos)

-- `up_div` rounds up: that many pieces of `b` hold `a`, and one piece fewer does not.
up_div-least : (a b : ℕ) → 0 < b → a + b < u64_mod → (a ≤ up_div a b * b) × (up_div a b * b < a + b)
unfolding up_div sub64
up_div-least a b pos small =
    let e : (a + b + u64_mod - 1) % u64_mod ≡ a + b - 1 = omega arith in
    rw e (
      pieces_hold (a + b - 1) a b pos (omega arith),
      pieces_tight (a + b - 1) a b pos (omega arith),
    )

-- The count of `c_read` and `c_write` is that of the blocks from the first byte's to the last's,
-- although the whole blocks between are counted by a difference that may wrap below 0.
pub touched-blocks :
    (offset length : ℕ)
    → 0 < length
    → offset + length < 36_028_797_002_186_752
    → touched offset length ≡ (offset + length - 1) / blocksize - offset / blocksize + 1
unfolding touched up_div add64 sub64
touched-blocks offset length pos small = ground arith
