-- ===== src/Cfs/Perm.antt =====
-- `permission_check` and `own_check` of c_node/fs/cfs.c.
pub mod Bits
use Prim.Native.Nat.{bit_and}
use sbpfs.Common.{ℕ, ◌==◌, ◌&&◌, not, Bool, if◌then◌else◌}
use sbpfs.Common.Mem.{Mem}
use sbpfs.Cfs.State.{s_all, s_ird, s_iwr, s_ord, s_owr}
use sbpfs.Cfs.Meta

-- `#define R 0x2`, `#define W 0x1`
abbrev pub op_r : ℕ
op_r = 2

abbrev pub op_w : ℕ
op_w = 1

unfoldable pub permission_check : ℕ → Mem → ℕ → ℕ
unfolding Meta.uid Meta.flags
permission_check uid meta op =
    let oid = Meta.uid meta 0 in
    let fmode = bit_and (Meta.flags meta 0) s_all in
    let uid' = if uid == 0 then oid else uid in
    if (uid' == oid) && (op == op_r)
    then bit_and fmode s_ird
    else if (uid' == oid) && (op == op_w)
    then bit_and fmode s_iwr
    else if not (uid' == oid) && (op == op_r)
    then bit_and fmode s_ord
    else if not (uid' == oid) && (op == op_w)
    then bit_and fmode s_owr
    else 0

-- `!permission_check(…)`
abbrev pub denied : ℕ → Mem → ℕ → Bool
denied uid meta op = permission_check uid meta op == 0

unfoldable pub own_check : ℕ → ℕ → Bool
own_check uid oid = if uid == 0 then Bool.true else uid == oid
