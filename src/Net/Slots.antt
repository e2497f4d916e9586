-- ===== src/Net/Slots.antt =====
-- What `get_slot` and `get_dnode_hostname` of libc/lib.c return.
use sbpfs.Common.{
  ℕ, zero, suc, ◌+◌, ◌*◌, ◌<◌, ◌≤◌, ◌≡◌, ◌⊎◌, inl, inr, refl, arith, Bool, true, false, Bool-cases,
  ◌==◌, ==→eq,
}
use sbpfs.Common.Mem.{u32_mod}
use sbpfs.Common.Run.{pos, minus}
use sbpfs.Net.{slot_loop, get_slot, max_file_open, octets}

-- `i` is the first slot that is not used, from `base` on and below `num`.
pub record IsFirstSlot (used : ℕ → Bool) (base num i : ℕ) : Type 0 where
  pub from : base ≤ i
  pub below : i < num
  pub unused : used i ≡ false
  pub first : (j : ℕ) → base ≤ j → j < i → used j ≡ true

slot_loop-first :
    (used : ℕ → Bool) (k i : ℕ)
    → ((r : ℕ) × (slot_loop used k i ≡ pos r) × IsFirstSlot used i (i + k) r)
      ⊎ (slot_loop used k i ≡ minus 1) × ((j : ℕ) → i ≤ j → j < i + k → used j ≡ true)
unfolding slot_loop
slot_loop-first used zero i = inr (refl, λ j p q. absurd (omega arith))
slot_loop-first used (suc k) i = elim (Bool-cases (used i)) [
  | inr vacant ↦ inl (
    i,
    rw vacant,
    record {
      from = omega arith;
      below = omega arith;
      unused = vacant;
      first = λ j p q. absurd (omega arith);
    },
  )
  | inl busy ↦ elim (slot_loop-first used k (i + 1)) [
    | inl (r, run, f) ↦ inl (
      r,
      rw (busy, run),
      record {
        from = omega (arith, f.from);
        below = omega (arith, f.below);
        unused = f.unused;
        first = λ j p q. elim (Bool-cases (j == i)) [
          | inl same ↦ ground (arith, ==→eq j i same)
          | inr other ↦ f.first j (ground arith) q
        ];
      },
    )
    | inr (run, full) ↦ inr (
      rw (busy, run),
      λ j p q. elim (Bool-cases (j == i)) [
        | inl same ↦ ground (arith, ==→eq j i same)
        | inr other ↦ full j (ground arith) (omega arith)
      ],
    )
  ]
]

-- `get_slot` returns the first slot that is not used, or -1 where all 4096 are.
pub get_slot-first :
    (used : ℕ → Bool)
    → ((r : ℕ) × (get_slot used ≡ pos r) × IsFirstSlot used 0 max_file_open r)
      ⊎ (get_slot used ≡ minus 1) × ((j : ℕ) → 0 ≤ j → j < max_file_open → used j ≡ true)
unfolding get_slot
get_slot-first used = slot_loop-first used 4096 0

-- The four numbers of a host name are bytes, and they are the digits of the node's address to the
-- base 256.
pub octets-dnode :
    (dnode : ℕ)
    → dnode < u32_mod
    → ((octets dnode).0 * 16_777_216
          + (octets dnode).1 * 65_536
          + (octets dnode).2 * 256
          + (octets dnode).3
        ≡ dnode)
      × ((octets dnode).0 < 256)
      × ((octets dnode).1 < 256)
      × ((octets dnode).2 < 256)
      × ((octets dnode).3 < 256)
unfolding octets
octets-dnode dnode h = (omega arith, omega arith, omega arith, omega arith, omega arith)
