-- ===== src/Cfs/Fat/Label.antt =====
-- What `do_writefile` of c_node/fs/cfs.c leaves of the super block as it is.
use mathlib.Core.Path.{subst}
use sbpfs.Common.{
  ℕ, zero, suc, ◌+◌, ◌-◌, ◌*◌, ◌%◌, ◌≡◌, refl, leb, ◌==◌, Bool-cases, inl, inr, Option, none, some,
  List,
}
use sbpfs.Common.Mem.{Mem, update, u32_mod, u64_mod}
use sbpfs.Cfs.State.{Dtree, Env, no_fat}
use sbpfs.Cfs.Meta
use sbpfs.Cfs.Fat.{
  with_fat, rounds, reset_loop, reset_fat, extended, extend, next_free_fat, find_free, alloc_fat,
  write_sector, with_next, write_loop, with_dtree, do_writefile,
}

-- The name of the file system, the number of the next block, and the size of the other buffer.
abbrev pub label : Dtree → List ℕ × ℕ × ℕ
label dt = (dt.sb.fstype, dt.sb.max_block_num, dt.in_size)

abbrev pub HasLabel : List ℕ × ℕ × ℕ → Option Dtree → Type 0
HasLabel l none = Unit
HasLabel l (some dt) = label dt ≡ l

abbrev NextHasLabel : List ℕ × ℕ × ℕ → Option (ℕ × Dtree) → Type 0
NextHasLabel l none = Unit
NextHasLabel l (some (next, dt)) = label dt ≡ l

extend-label : (e : Env) (n : ℕ) (dt : Dtree) → label (extend e n dt).1 ≡ label dt
unfolding extend extended
extend-label e n dt = elim (Bool-cases (leb n dt.dt_size)) [
  | inl small ↦ rw small refl
  | inr large ↦ elim (Bool-cases (e.grants 0 n)) [
    | inl granted ↦ rw (large, granted) refl
    | inr refused ↦ rw (large, refused) refl
  ]
]

find_free-label :
    (e : Env) (k base : ℕ) (dt : Dtree) → NextHasLabel (label dt) (find_free e k base dt)
unfolding find_free
find_free-label e zero base dt = tt
find_free-label e (suc k) base dt =
    let bigger = (extend e (dt.dt_size * 2 % u32_mod) dt).1 in
    elim (Bool-cases (next_free_fat base dt.fat dt.sb.fat_num == no_fat)) [
      | inl full ↦ rw full (
          subst (λ l. NextHasLabel l (find_free e k base bigger))
            (extend-label e (dt.dt_size * 2 % u32_mod) dt) (find_free-label e k base bigger))
      | inr free ↦ rw free refl
    ]

write_sector-label :
    (i s size : ℕ) (buf : Mem) (dt : Dtree) → label (write_sector i s size buf dt) ≡ label dt
unfolding write_sector
write_sector-label i s size buf dt = refl

with_next-label :
    (l : List ℕ × ℕ × ℕ) (found : Option (ℕ × Dtree)) (go : ℕ → Dtree → Option Dtree)
    → NextHasLabel l found
    → ((next : ℕ) (dt : Dtree) → HasLabel (label dt) (go next dt))
    → HasLabel l (with_next found go)
with_next-label l none go same h = tt
with_next-label l (some (next, dt)) go same h =
    subst (λ m. HasLabel m (go next dt)) same (h next dt)

write_loop-label :
    (e : Env) (k i s size : ℕ) (buf : Mem) (dt : Dtree)
    → HasLabel (label dt) (write_loop e k i s size buf dt)
unfolding write_loop
write_loop-label e zero i s size buf dt = refl
write_loop-label e (suc zero) i s size buf dt = write_sector-label i s size buf dt
write_loop-label e (suc (suc k)) i s size buf dt =
    with_next-label (label dt) (alloc_fat e s (write_sector i s size buf dt))
      (λ next dt'.
        write_loop e (suc k) (i + 1) next ((size + u64_mod - dt'.sb.byts_per_sec) % u64_mod) buf
          (record dt' { fat = update dt'.fat s next }))
      (unfold alloc_fat in find_free-label e 34 s (write_sector i s size buf dt))
      (λ next dt'.
        write_loop-label e (suc k) (i + 1) next ((size + u64_mod - dt'.sb.byts_per_sec) % u64_mod)
          buf (record dt' { fat = update dt'.fat s next }))

with_fat-label :
    (dt : Dtree) (l : List ℕ × ℕ × ℕ) (found : Option (ℕ → ℕ)) (go : Dtree → Option Dtree)
    → ((fat : ℕ → ℕ) → HasLabel l (go (record dt { fat = fat })))
    → HasLabel l (with_dtree (with_fat dt found) go)
with_fat-label dt l none go h = tt
with_fat-label dt l (some fat) go h = h fat

-- `do_writefile` keeps the name of the file system, the number of the next block and the size of the
-- other buffer.
pub do_writefile-label :
    (e : Env) (fb size : ℕ) (buf : Mem) (dt dt' : Dtree)
    → do_writefile e fb buf size dt ≡ some dt'
    → label dt' ≡ label dt
unfolding do_writefile reset_fat
do_writefile-label e fb size buf dt dt' run = subst (HasLabel (label dt)) run (
    with_fat-label dt (label dt) (reset_loop (rounds dt) fb dt.fat)
      (write_loop e (Meta.blocks buf 0) 0 fb size buf)
      (λ fat. write_loop-label e (Meta.blocks buf 0) 0 fb size buf (record dt { fat = fat })))
