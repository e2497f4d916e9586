-- ===== src/Cfs/Fat/Scan.antt =====
-- What `next_free_fat` of c_node/fs/cfs.c finds.
use sbpfs.Common.{
  ℕ, zero, suc, ◌+◌, ◌-◌, ◌≤◌, ◌<◌, ◌≡◌, ◌≢◌, ◌==◌, Bool-cases, ==→eq, inl, inr, ◌⊎◌, refl, arith,
}
use sbpfs.Cfs.State.{freesec, no_fat}
use sbpfs.Cfs.Fat.{scan_fat, next_free_fat}

-- `r` is the first free sector at or behind `base`, below `num`.
pub record IsFirstFree (fat : ℕ → ℕ) (base num r : ℕ) : Type 0 where
  pub from : base ≤ r
  pub below : r < num
  pub free : fat r ≡ freesec
  pub first : (j : ℕ) → base ≤ j → j < r → fat j ≢ freesec

scan_fat-first :
    (fat : ℕ → ℕ) (k i : ℕ)
    → scan_fat fat k i ≢ no_fat
    → IsFirstFree fat i (i + k) (scan_fat fat k i)
unfolding scan_fat
scan_fat-first fat zero i h = absurd (h refl)
scan_fat-first fat (suc k) i h = elim (Bool-cases (fat i == freesec)) [
  | inl hit ↦ rw hit (record {
    from = omega arith;
    below = omega arith;
    free = ==→eq _ _ hit;
    first = λ j p q. absurd (omega arith);
  })
  | inr miss ↦ rw miss (
      let rest = scan_fat-first fat k (i + 1) (λ e. h (rw (miss, e))) in
      record {
        from = omega arith;
        below = omega arith;
        free = rest.free;
        first = λ j p q. elim (Bool-cases (j == i)) [
          | inl same ↦ ground (arith, ==→eq j i same)
          | inr other ↦ rest.first j (ground arith) q
        ];
      })
]

scan_fat-none :
    (fat : ℕ → ℕ) (k i : ℕ)
    → scan_fat fat k i ≡ no_fat
    → i + k ≤ no_fat
    → (j : ℕ) → i ≤ j
    → j < i + k
    → fat j ≢ freesec
unfolding scan_fat
scan_fat-none fat zero i h l j p q = absurd (omega arith)
scan_fat-none fat (suc k) i h l j p q =
    ground (arith, scan_fat-none fat k (i + 1) (ground arith) (omega arith) j)

-- `next_free_fat` returns the first free sector from `base` up to the end of the table, or -1 where
-- there is none. The table is no longer than a `u32_t` counts.
pub next_free_fat-first :
    (base : ℕ) (fat : ℕ → ℕ) (fat_num : ℕ)
    → fat_num ≤ no_fat
    → base ≤ fat_num
    → IsFirstFree fat base fat_num (next_free_fat base fat fat_num)
      ⊎ (next_free_fat base fat fat_num ≡ no_fat)
        × ((j : ℕ) → base ≤ j → j < fat_num → fat j ≢ freesec)
unfolding next_free_fat
next_free_fat-first base fat fat_num small le =
    let whole : base + (fat_num - base) ≡ fat_num = omega arith in
    elim (Bool-cases (scan_fat fat (fat_num - base) base == no_fat)) [
      | inl e ↦ inr (
        ==→eq _ _ e,
        λ j p q.
            scan_fat-none fat (fat_num - base) base (==→eq _ _ e) (omega arith) j p (omega arith),
      )
      | inr ne ↦ inl (rw whole at (scan_fat-first fat (fat_num - base) base (ground arith)))
    ]

-- a table with a free sector behind `base` yields one
pub next_free_fat-found :
    (base : ℕ) (fat : ℕ → ℕ) (fat_num j : ℕ)
    → fat_num ≤ no_fat
    → base ≤ j
    → j < fat_num
    → fat j ≡ freesec
    → next_free_fat base fat fat_num ≢ no_fat
next_free_fat-found base fat fat_num j small p q free e =
    elim (next_free_fat-first base fat fat_num small (omega arith)) [
      | inl r ↦ omega (arith, r.below)
      | inr (_, full) ↦ full j p q free
    ]
