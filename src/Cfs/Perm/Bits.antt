-- ===== src/Cfs/Perm/Bits.antt =====
-- What the permission bits of c_node/fs/cfs.c grant, and what `c_chmod` makes of them.
use Prim.Native.Nat.{bit_and}
use sbpfs.Common.{
  ℕ, ◌/◌, ◌%◌, ◌^◌, ◌<◌, ◌≡◌, refl, Bool, true, not, ◌==◌, ◌&&◌, if◌then◌else◌, Bool-cases, inl,
  inr, ==-refl,
}
use sbpfs.Common.Mem.{Mem}
use sbpfs.Common.Tables.{and_parts, each_below, each_below_lem, same, same→eq}
use sbpfs.Cfs.State.{s_all, s_ird, s_iwr, s_ord, s_owr}
use sbpfs.Cfs.Meta
use sbpfs.Cfs.Perm.{op_r, op_w, permission_check, denied, own_check}

-- bit number `k` of the flags
unfoldable pub has_bit : ℕ → ℕ → Bool
has_bit flags k = flags / 2 ^ k % 2 == 1

masks :
    each_below 256 (λ f.
      same (bit_and (bit_and f s_all) s_ird == 0) (not (has_bit f 3))
      && (same (bit_and (bit_and f s_all) s_iwr == 0) (not (has_bit f 2))
          && (same (bit_and (bit_and f s_all) s_ord == 0) (not (has_bit f 1))
              && same (bit_and (bit_and f s_all) s_owr == 0) (not (has_bit f 0)))))
    ≡ true
unfolding each_below has_bit
masks = refl

-- the bit that is looked at
read_mask :
    (uid : ℕ) (meta : Mem)
    → permission_check uid meta op_r
      ≡ bit_and
          (bit_and (Meta.flags meta 0) s_all)
          (if own_check uid (Meta.uid meta 0) then s_ird else s_ord)
unfolding permission_check own_check
read_mask uid meta = elim (Bool-cases (uid == 0)) [
  | inl root ↦ rw (root, ==-refl (Meta.uid meta 0))
  | inr user ↦
      rw user
        (elim (Bool-cases (uid == Meta.uid meta 0)) [ inl own ↦ rw own | inr other ↦ rw other ])
]

write_mask :
    (uid : ℕ) (meta : Mem)
    → permission_check uid meta op_w
      ≡ bit_and
          (bit_and (Meta.flags meta 0) s_all)
          (if own_check uid (Meta.uid meta 0) then s_iwr else s_owr)
unfolding permission_check own_check
write_mask uid meta = elim (Bool-cases (uid == 0)) [
  | inl root ↦ rw (root, ==-refl (Meta.uid meta 0))
  | inr user ↦
      rw user
        (elim (Bool-cases (uid == Meta.uid meta 0)) [ inl own ↦ rw own | inr other ↦ rw other ])
]

-- The root and the owner read by bit 3 and write by bit 2 of the flags, everybody else reads by bit
-- 1 and writes by bit 0. `own_check` says who counts as the owner. The flags are a byte.
pub denied-has_bit :
    (uid : ℕ) (meta : Mem)
    → Meta.flags meta 0 < 256
    → (denied uid meta op_r
        ≡ not (has_bit (Meta.flags meta 0) (if own_check uid (Meta.uid meta 0) then 3 else 1)))
      × (denied uid meta op_w
          ≡ not (has_bit (Meta.flags meta 0) (if own_check uid (Meta.uid meta 0) then 2 else 0)))
denied-has_bit uid meta byte =
    let f = Meta.flags meta 0 in
    let (r3, r2, r1, r0) = and_parts _ _ _ _ (each_below_lem _ 256 masks f byte) in
    elim (Bool-cases (own_check uid (Meta.uid meta 0))) [
      | inl own ↦ (
        rw (read_mask uid meta, own) (same→eq _ _ r3),
        rw (write_mask uid meta, own) (same→eq _ _ r2),
      )
      | inr other ↦ (
        rw (read_mask uid meta, other) (same→eq _ _ r1),
        rw (write_mask uid meta, other) (same→eq _ _ r0),
      )
    ]
