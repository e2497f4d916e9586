-- ===== src/Cfs/Dir/Find.antt =====
-- What `find_entry_by_name` of c_node/fs/cfs.c finds.
use sbpfs.Common.{
  ℕ, zero, suc, Bool, ◌+◌, ◌*◌, ◌/◌, ◌≤◌, ◌<◌, ◌≡◌, ◌⊎◌, inl, inr, ap, ◌∙◌, arith, true, false,
  ◌==◌, none, some, List, Bool-cases, ==→eq, ne→==-false,
}
use sbpfs.Common.Mem.{Mem}
use sbpfs.Cfs.Meta
use sbpfs.Cfs.Dir.{str_at, name_at, find_loop, find_entry_by_name}

-- Entry number `i` of a directory has the name.
abbrev pub named : Mem → List ℕ → ℕ → Bool
named pdata name i = str_at pdata (name_at pdata (64 + 16 * i)) name

-- `i` is the number of the first entry with the name, from entry `from` on, of `n` entries.
pub record IsFirstNamed (pdata : Mem) (name : List ℕ) (from n i : ℕ) : Type 0 where
  pub behind : from ≤ i
  pub below : i < n
  pub hit : named pdata name i ≡ true
  pub first : (j : ℕ) → from ≤ j → j < i → named pdata name j ≡ false

find_loop-first :
    (k i n : ℕ) (pdata : Mem) (name : List ℕ)
    → Meta.strbase pdata 0 ≡ 16 * n
    → i + k ≡ n
    → ((r : ℕ) × (find_loop (suc k) (64 + 16 * i) pdata name ≡ some (some (64 + 16 * r)))
        × IsFirstNamed pdata name i n r)
      ⊎ (find_loop (suc k) (64 + 16 * i) pdata name ≡ some none)
        × ((j : ℕ) → i ≤ j → j < n → named pdata name j ≡ false)
unfolding find_loop
find_loop-first zero i n pdata name base e = inr (ground arith, λ j p q. absurd (omega arith))
find_loop-first (suc k) i n pdata name base e = elim (Bool-cases (named pdata name i)) [
  | inl hit ↦ inl (
    i,
    rw (ne→==-false (64 + 16 * i) (64 + Meta.strbase pdata 0) (omega arith), hit),
    record {
      behind = omega arith;
      below = omega arith;
      hit = hit;
      first = λ j p q. absurd (omega arith);
    },
  )
  | inr miss ↦
      let next : 64 + 16 * i + 16 ≡ 64 + 16 * (i + 1) = omega arith in
      let step : find_loop (suc (suc k)) (64 + 16 * i) pdata name
          ≡ find_loop (suc k) (64 + 16 * (i + 1)) pdata name =
        rw (ne→==-false (64 + 16 * i) (64 + Meta.strbase pdata 0) (omega arith), miss)
          (ap (λ p. find_loop (suc k) p pdata name) next) in
      elim (find_loop-first k (i + 1) n pdata name base (omega arith)) [
        | inl (r, run, f) ↦ inl (
          r,
          step ∙ run,
          record {
            behind = omega (arith, f.behind);
            below = f.below;
            hit = f.hit;
            first = λ j p q. elim (Bool-cases (j == i)) [
              | inl same ↦ ap (named pdata name) (==→eq j i same) ∙ miss
              | inr other ↦ f.first j (ground arith) q
            ];
          },
        )
        | inr (run, none_named) ↦ inr (
          step ∙ run,
          λ j p q. elim (Bool-cases (j == i)) [
            | inl same ↦ ap (named pdata name) (==→eq j i same) ∙ miss
            | inr other ↦ none_named j (ground arith) q
          ],
        )
      ]
]

-- In a directory of `n` whole entries `find_entry_by_name` ends, with the first entry that has the
-- name, or with NULL where no entry has it.
pub find_entry_by_name-first :
    (n : ℕ) (pdata : Mem) (name : List ℕ)
    → Meta.strbase pdata 0 ≡ 16 * n
    → ((r : ℕ) × (find_entry_by_name pdata name ≡ some (some (64 + 16 * r)))
        × IsFirstNamed pdata name 0 n r)
      ⊎ (find_entry_by_name pdata name ≡ some none) × ((j : ℕ) → j < n → named pdata name j ≡ false)
unfolding find_entry_by_name
find_entry_by_name-first n pdata name base =
    let rounds : Meta.strbase pdata 0 / 16 + 1 ≡ suc n = omega arith in
    rw rounds (elim (find_loop-first n 0 n pdata name base (omega arith)) [
      | inl found ↦ inl found
      | inr (run, unnamed) ↦ inr (run, λ j q. unnamed j (omega arith) q)
    ])
