-- ===== src/Cfs/Disk/Load.antt =====
-- `load_file` of c_node/fs/cfs.c reads a file whole.
use sbpfs.Common.{
  ℕ, zero, suc, ◌+◌, ◌-◌, ◌*◌, ◌%◌, ◌^◌, ◌≤◌, ◌<◌, ◌≡◌, refl, ◌∙◌, arith, true, ◌==◌, ltb,
  if◌then◌else◌, ap, Bool-cases, inl, inr, ==→eq, ne→==-false, some, List,
}
use sbpfs.Common.Mem.{Mem, memcpy}
use sbpfs.Common.Run.{pos, done}
use sbpfs.Cfs.State.{init_max}
use sbpfs.Cfs.Disk.Layout.{Image}
use sbpfs.Cfs.Disk.{Os, Files, Loaded, more, whole, grow, one_read, load_loop, load_file}

-- `read` gives a byte or more before the end of the file, no more than are asked for, and none at its
-- end; and memory is granted.
pub record IsReading (o : Os) (f : Image) : Type 0 where
  pub small : f.size < 2 ^ 31
  pub granted : (place n : ℕ) → o.env.grants place n ≡ true
  pub gives :
      (from asked : ℕ)
      → from < f.size
      → 0 < asked
      → (n : ℕ) × (0 < n) × (n ≤ asked) × (from + n ≤ f.size) × (o.reads f from asked ≡ pos n)
  pub ends : (asked : ℕ) → o.reads f f.size asked ≡ pos 0

pub record IsPart (f : Image) (r : Loaded) : Type 0 where
  pub within : r.size ≤ f.size
  pub room : r.size < r.max
  pub same : (a : ℕ) → a < r.size → r.buf a ≡ f.bytes a

module _ (o : Os) (f : Image) (ok : IsReading o f) where
  grow-IsPart :
      (size max : ℕ) (buf : Mem)
      → size ≤ f.size
      → size ≤ max
      → 0 < size
      → ((a : ℕ) → a < size → buf a ≡ f.bytes a)
      → (r : Loaded) × (grow o (record { size = size; max = max; buf = buf }) ≡ more r)
        × (r.size ≡ size)
        × IsPart f r
  unfolding grow
  grow-IsPart size max buf within room some_bytes same = elim (Bool-cases (size == max)) [
    | inl full ↦ (
      record {
        size = size;
        max = max * 2 % 2 ^ 32;
        buf = λ a. if ltb a max then buf a else o.env.junk a;
      },
      rw (full, ok.granted 101 (max * 2 % 2 ^ 32)) refl,
      refl,
      record {
        within = within;
        room = omega (arith, ==→eq size max full, ok.small);
        same = λ a h. ground (arith, ==→eq size max full, same a h);
      },
    )
    | inr space ↦ (
      record { size = size; max = max; buf = buf },
      rw space refl,
      refl,
      record { within = within; room = ground (arith, space); same = same },
    )
  ]

  one_read-pos :
      (r : Loaded) (n : ℕ)
      → 0 < n
      → r.size + n < 2 ^ 32
      → o.reads f r.size (r.max - r.size) ≡ pos n
      → one_read o f r
        ≡ grow o
            (record { size = r.size + n; max = r.max; buf = memcpy r.buf r.size f.bytes r.size n })
  unfolding one_read
  one_read-pos r n some_bytes small answer =
      let sum : (r.size + n) % 2 ^ 32 ≡ r.size + n = omega arith in
      rw (one_read, answer, ne→==-false n 0 (λ z. omega (arith, z)), sum) refl

  one_read-more :
      (r : Loaded)
      → IsPart f r
      → r.size < f.size
      → (r' : Loaded) × (one_read o f r ≡ more r') × (r.size < r'.size) × IsPart f r'
  one_read-more r part short =
      let (n, some_bytes, few, inside, answer) =
        ok.gives r.size (r.max - r.size) short (omega (arith, part.room)) in
      let (r', grown, size, part') =
        grow-IsPart (r.size + n) r.max (memcpy r.buf r.size f.bytes r.size n) inside
          (omega (arith, part.room)) (omega arith)
          (λ a h. unfold memcpy in ground (arith, part.same a)) in
      (
        r',
        one_read-pos r n (omega arith) (omega (arith, ok.small, inside)) answer ∙ grown,
        omega (arith, size),
        part',
      )

  one_read-whole : (r : Loaded) → r.size ≡ f.size → one_read o f r ≡ whole
  unfolding one_read
  one_read-whole r size =
      let at_end : o.reads f r.size (r.max - r.size) ≡ pos 0 =
        ap (λ n. o.reads f n (r.max - r.size)) size ∙ ok.ends (r.max - r.size) in
      rw (one_read, at_end) refl

  load_loop-whole :
      (k : ℕ) (r : Loaded) (s : Files)
      → IsPart f r
      → f.size < r.size + k
      → (r' : Loaded) × (load_loop k o f r s ≡ done (some r') s) × (r'.size ≡ f.size) × IsPart f r'
  unfolding load_loop
  load_loop-whole zero r s part enough = absurd (omega (arith, part.within))
  load_loop-whole (suc k) r s part enough = elim (Bool-cases (ltb r.size f.size)) [
    | inl short ↦
        let (r1, step, grows, part1) = one_read-more r part (ground (arith, short)) in
        let (r', run, size, part') = load_loop-whole k r1 s part1 (omega arith) in
        (r', rw (load_loop, step) run, size, part')
    | inr full ↦
        let size : r.size ≡ f.size = ground (arith, full, part.within) in
        (r, rw (load_loop, one_read-whole r size) refl, size, part)
  ]

  -- `load_file` ends, with all the bytes of the file.
  pub load_file-whole :
      (name : List ℕ) (files : Files)
      → files name ≡ some f
      → (r : Loaded) × (load_file o name files ≡ done (some r) files)
        × (r.size ≡ f.size)
        × IsPart f r
  unfolding load_file
  load_file-whole name files there =
      let (r, run, size, part) =
        load_loop-whole (suc (f.size + 1)) (record { size = 0; max = init_max; buf = o.env.junk })
          files
          (record { within = omega arith; room = omega arith; same = λ a h. absurd (omega arith) })
          (omega arith) in
      (r, rw (there, ok.granted 100 init_max) run, size, part)
