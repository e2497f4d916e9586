-- ===== src/Node/Threads/Exclusive.antt =====
-- The threads of a data node, where none sets `path` while another is between its `getpath` and its
-- `fopen` (d_node/haha/blockman.c).
use mathlib.Core.Path.{subst}
use sbpfs.Common.{
  ℕ, ◌≡◌, ◌≢◌, refl, sym, ap, arith, ◌∙◌, true, ◌==◌, ==→eq, Bool-cases, inl, inr, none, some,
}
use sbpfs.Common.Run.{done}
use sbpfs.Head.Strings.{Bytes}
use sbpfs.Node.{ListEntry}
use sbpfs.Node.Files.{
  NodeEnv, DNode, File, getpath, readblock, writeblock, open_or_create, createblock, set_file,
}
use sbpfs.Node.Store.{readblock-missing}
use sbpfs.Node.Threads.{
  Pc, idle, starting, named, opened, has_read, has_written, System, set_pc, set_pc-own, found,
  changed, Step, accept, name, open_file, no_file, create, read, write,
}

-- No thread but `i` is between its `getpath` and its `fopen`.
abbrev pub IsAlone : ℕ → System → Type 0
IsAlone i s = (j : ℕ) (r : ListEntry) → s.pc j ≡ named r → j ≡ i

-- A step that sets `path` is taken alone.
abbrev pub IsExclusive : (e : NodeEnv) (i : ℕ) (s t : System) → Step e i s t → Type 0
IsExclusive e i s t (accept r at eq) = Unit
IsExclusive e i s t (name r at eq) = IsAlone i s
IsExclusive e i s t (open_file r f at there eq) = Unit
IsExclusive e i s t (no_file r at reads gone eq) = Unit
IsExclusive e i s t (create r d at writes gone made eq) = IsAlone i s
IsExclusive e i s t (read r p f at reads there eq) = Unit
IsExclusive e i s t (write r p f at writes there eq) = Unit

pub data Reach (e : NodeEnv) (s : System) : System → Type 0 where
  here : Reach e s s
  next :
      {t u : System} (i : ℕ)
      → Reach e s t
      → (st : Step e i t u) → IsExclusive e i t u st
      → Reach e s u

-- `path` and the open files are those of the thread's own block.
abbrev OwnPc : NodeEnv → Bytes → Pc → Type 0
OwnPc e path idle = Unit
OwnPc e path (starting r) = Unit
OwnPc e path (named r) = path ≡ getpath e r.block_num
OwnPc e path (opened r p) = p ≡ getpath e r.block_num
OwnPc e path (has_read r x) = Unit
OwnPc e path (has_written r) = Unit

abbrev IsOwn : NodeEnv → System → Type 0
IsOwn e s = (j : ℕ) → OwnPc e s.path (s.pc j)

-- A thread's new place, with the places of the others kept.
OwnPc-set_pc :
    (e : NodeEnv) (path : Bytes) (i : ℕ) (c : Pc) (pc : ℕ → Pc)
    → OwnPc e path c
    → ((j : ℕ) → j ≢ i → OwnPc e path (pc j))
    → (j : ℕ) → OwnPc e path (set_pc i c pc j)
OwnPc-set_pc e path i c pc own others j = elim (Bool-cases (j == i)) [
  | inl same ↦ rw same own
  | inr other ↦ rw other (others j (λ e'. ground (arith, e', other)))
]

-- Another path, where no thread but one is between `getpath` and `fopen`.
OwnPc-path :
    (e : NodeEnv) (path path' : Bytes) (c : Pc)
    → ((r : ListEntry) → c ≢ named r)
    → OwnPc e path c
    → OwnPc e path' c
OwnPc-path e path path' idle ne own = tt
OwnPc-path e path path' (starting r) ne own = tt
OwnPc-path e path path' (named r) ne own = absurd (ne r refl)
OwnPc-path e path path' (opened r p) ne own = own
OwnPc-path e path path' (has_read r x) ne own = tt
OwnPc-path e path path' (has_written r) ne own = tt

Step-IsOwn :
    (e : NodeEnv) (i : ℕ) (s t : System) (st : Step e i s t)
    → IsExclusive e i s t st
    → IsOwn e s
    → IsOwn e t
Step-IsOwn e i s t (accept r at eq) alone own =
    subst (IsOwn e) (sym eq) (OwnPc-set_pc e s.path i (starting r) s.pc tt (λ j ne. own j))
Step-IsOwn e i s t (name r at eq) alone own = subst (IsOwn e) (sym eq) (
    OwnPc-set_pc e (getpath e r.block_num) i (named r) s.pc refl (λ j ne.
      OwnPc-path e s.path (getpath e r.block_num) (s.pc j) (λ r' h. ne (alone j r' h)) (own j)))
Step-IsOwn e i s t (open_file r f at there eq) alone own = subst (IsOwn e) (sym eq) (
    OwnPc-set_pc e s.path i (opened r s.path) s.pc (subst (OwnPc e s.path) at (own i))
      (λ j ne. own j))
Step-IsOwn e i s t (no_file r at reads gone eq) alone own =
    subst (IsOwn e) (sym eq) (OwnPc-set_pc e s.path i (has_read r none) s.pc tt (λ j ne. own j))
Step-IsOwn e i s t (create r d at writes gone made eq) alone own = subst (IsOwn e) (sym eq) (λ j.
    elim (Bool-cases (j == i)) [
      | inl same ↦
          subst (OwnPc e (getpath e r.block_num)) (sym (ap s.pc (==→eq j i same) ∙ at)) refl
      | inr other ↦
          OwnPc-path e s.path (getpath e r.block_num) (s.pc j)
            (λ r' h. ground (arith, alone j r' h, other)) (own j)
    ])
Step-IsOwn e i s t (read r p f at reads there eq) alone own =
    subst (IsOwn e) (sym eq)
      (OwnPc-set_pc e s.path i (has_read r (some (found e r f))) s.pc tt (λ j ne. own j))
Step-IsOwn e i s t (write r p f at writes there eq) alone own =
    subst (IsOwn e) (sym eq) (OwnPc-set_pc e s.path i (has_written r) s.pc tt (λ j ne. own j))

Reach-IsOwn : {e : NodeEnv} {s t : System} → IsOwn e s → Reach e s t → IsOwn e t
Reach-IsOwn own here = own
Reach-IsOwn {e} own (next {t} {u} i run st alone) =
    Step-IsOwn e i t u st alone (Reach-IsOwn own run)

-- What a step does to the blocks is what one call of `readblock`, `writeblock` or `createblock` of the
-- thread's own block does, at the moment of the step.
abbrev pub IsAtomic : (e : NodeEnv) (i : ℕ) (s t : System) → Step e i s t → Type 0
IsAtomic e i s t (accept r at eq) = t.node ≡ s.node
IsAtomic e i s t (name r at eq) = t.node ≡ s.node
IsAtomic e i s t (open_file r f at there eq) = t.node ≡ s.node
IsAtomic e i s t (no_file r at reads gone eq) =
    (readblock e r.block_num r.offset r.length s.node ≡ done none s.node)
    × (t.pc i ≡ has_read r none)
    × (t.node ≡ s.node)
IsAtomic e i s t (create r d at writes gone made eq) =
    (s.node.files (getpath e r.block_num) ≡ none)
    × (createblock e r.block_num s.node ≡ done tt t.node)
IsAtomic e i s t (read r p f at reads there eq) =
    (readblock e r.block_num r.offset r.length s.node ≡ done (some (found e r f)) s.node)
    × (t.pc i ≡ has_read r (some (found e r f)))
    × (t.node ≡ s.node)
IsAtomic e i s t (write r p f at writes there eq) =
    (writeblock e r.block_num r.offset r.length r.content s.node ≡ done true t.node)
    × (t.pc i ≡ has_written r)

readblock-file :
    (e : NodeEnv) (r : ListEntry) (d : DNode) (f : File)
    → d.files (getpath e r.block_num) ≡ some f
    → readblock e r.block_num r.offset r.length d ≡ done (some (found e r f)) d
unfolding readblock
readblock-file e r d f there = rw (readblock, there) refl

writeblock-file :
    (e : NodeEnv) (r : ListEntry) (d : DNode) (f : File)
    → d.files (getpath e r.block_num) ≡ some f
    → writeblock e r.block_num r.offset r.length r.content d
      ≡ done true (set_file (getpath e r.block_num) (changed r f) d)
unfolding writeblock open_or_create
writeblock-file e r d f there = rw (writeblock, there) refl

Step-IsAtomic :
    (e : NodeEnv) (i : ℕ) (s t : System) (st : Step e i s t) → IsOwn e s → IsAtomic e i s t st
Step-IsAtomic e i s t (accept r at eq) own = ap (λ u. u.node) eq
Step-IsAtomic e i s t (name r at eq) own = ap (λ u. u.node) eq
Step-IsAtomic e i s t (open_file r f at there eq) own = ap (λ u. u.node) eq
Step-IsAtomic e i s t (no_file r at reads gone eq) own =
    let here = subst (OwnPc e s.path) at (own i) in
    (
      readblock-missing e r.block_num r.offset r.length s.node (ap s.node.files (sym here) ∙ gone),
      ap (λ u. u.pc i) eq ∙ set_pc-own i (has_read r none) s.pc,
      ap (λ u. u.node) eq,
    )
Step-IsAtomic e i s t (create r d at writes gone made eq) own =
    let here = subst (OwnPc e s.path) at (own i) in
    (ap s.node.files (sym here) ∙ gone, made ∙ ap (λ u. done tt u.node) (sym eq))
Step-IsAtomic e i s t (read r p f at reads there eq) own =
    let here = subst (OwnPc e s.path) at (own i) in
    (
      readblock-file e r s.node f (ap s.node.files (sym here) ∙ there),
      ap (λ u. u.pc i) eq ∙ set_pc-own i (has_read r (some (found e r f))) s.pc,
      ap (λ u. u.node) eq,
    )
Step-IsAtomic e i s t (write r p f at writes there eq) own =
    let here = subst (OwnPc e s.path) at (own i) in
    (
      writeblock-file e r s.node f (ap s.node.files (sym here) ∙ there)
          ∙ (ap (λ q. done true (set_file q (changed r f) s.node)) (sym here)
              ∙ ap (λ u. done true u.node) (sym eq)),
      ap (λ u. u.pc i) eq ∙ set_pc-own i (has_written r) s.pc,
    )

-- Threads that all start idle, and of which none sets `path` while another stands between its
-- `getpath` and its `fopen`: each step that touches the blocks does to them what one call of
-- `readblock`, `writeblock` or `createblock` of the thread's own block does at that moment, with the
-- same result, and no other step changes them.
pub Reach-IsAtomic :
    {e : NodeEnv} {s t u : System}
    → ((j : ℕ) → s.pc j ≡ idle)
    → Reach e s t
    → (i : ℕ) (st : Step e i t u) → IsAtomic e i t u st
Reach-IsAtomic {e} {s} {t} {u} all_idle run i st =
    Step-IsAtomic e i t u st (Reach-IsOwn (λ j. subst (OwnPc e s.path) (sym (all_idle j)) tt) run)
