-- ===== src/Node/Store.antt =====
-- What `writeblock` of d_node/haha/blockman.c stores, `readblock` returns; and blocks do not mix.
use sbpfs.Common.{
  ℕ, zero, suc, ◌+◌, ◌-◌, ◌%◌, ◌<◌, ◌≡◌, ◌≢◌, refl, sym, ap, ◌∙◌, arith, ◌==◌, true, false,
  if◌then◌else◌, Option, none, some, [], ◌∷◌, ◌++◌, length, get_elem?, take, drop, codes, str_eq,
  All, Bool-cases, Option-cases, inl, inr, ==→eq, ne→==-false,
}
use sbpfs.Common.Mem.{Mem, put}
use sbpfs.Common.Run.{done}
use sbpfs.Head.Strings.{Bytes}
use sbpfs.Node.Files.{
  NodeEnv, DNode, File, getpath, bytes_from, read_at, write_at, readblock, set_file, addlist,
  createblock, open_or_create, writeblock, zeros,
}

pub str_eq_refl : (s : Bytes) → str_eq s s ≡ true
str_eq_refl [] = refl
str_eq_refl (c ∷ s) = ground (arith, str_eq_refl s)

pub str_eq→eq : (s t : Bytes) → str_eq s t ≡ true → s ≡ t
str_eq→eq [] [] h = refl
str_eq→eq [] (b ∷ t) h = cc
str_eq→eq (a ∷ s) [] h = cc
str_eq→eq (a ∷ s) (b ∷ t) h = λ i. ==→eq a b (ground arith) i ∷ str_eq→eq s t (ground arith) i

pub ne→str_eq-false : (s t : Bytes) → s ≢ t → str_eq s t ≡ false
ne→str_eq-false s t ne = elim (Bool-cases (str_eq s t)) [
  | inl same ↦ absurd (ne (str_eq→eq s t same))
  | inr other ↦ other
]

get_elem-lt : (xs : Bytes) (i b : ℕ) → get_elem? xs i ≡ some b → i < length xs
get_elem-lt [] i b h = cc
get_elem-lt (x ∷ xs) zero b h = omega arith
get_elem-lt (x ∷ xs) (suc i) b h = omega (arith, get_elem-lt xs i b h)

bytes_from-eq :
    (xs : Bytes) (m : Mem) (a : ℕ)
    → ((i b : ℕ) → get_elem? xs i ≡ some b → m (a + i) ≡ b)
    → bytes_from (length xs) m a ≡ xs
unfolding bytes_from
bytes_from-eq [] m a h = refl
bytes_from-eq (x ∷ xs) m a h =
    let first : m a ≡ x = ap m (omega arith) ∙ h 0 x refl in
    let rest = bytes_from-eq xs m (a + 1) (λ i b e. ap m (omega arith) ∙ h (suc i) b e) in
    λ i. first i ∷ rest i

pub take-all_lem : (xs : Bytes) → take (length xs) xs ≡ xs
take-all_lem [] = refl
take-all_lem (x ∷ xs) = ap (λ s. x ∷ s) (take-all_lem xs)

pub read_at-write_at :
    (f : File) (offset : ℕ) (content : Bytes) (junk : Mem)
    → bytes_from (length content) (read_at (write_at f offset content) offset junk) 0 ≡ content
unfolding write_at put
read_at-write_at f offset content junk = bytes_from-eq content _ 0 holds
  where
    holds :
        (i b : ℕ)
        → get_elem? content i ≡ some b
        → read_at (write_at f offset content) offset junk (0 + i) ≡ b
    holds i b e =
        let lt = get_elem-lt content i b e in
        let at : offset + (0 + i) - offset ≡ i = omega arith in
        let here : get_elem? content (offset + (0 + i) - offset) ≡ some b =
          ap (get_elem? content) at ∙ e in
        ground (arith, here, lt)

-- The file of a block after a write, and the state from which it was written.
record IsWritten (e : NodeEnv) (blocknum offset : ℕ) (content : Bytes) (s s' : DNode) : Type 0 where
  old : File
  stored : s'.files (getpath e blocknum) ≡ some (write_at old offset content)
  others : (p : Bytes) → str_eq p (getpath e blocknum) ≡ false → s'.files p ≡ s.files p

writeblock-IsWritten :
    (e : NodeEnv) (blocknum offset : ℕ) (content : Bytes) (s : DNode)
    → e.creates (getpath e blocknum) ≡ true
    → (s' : DNode) × (writeblock e blocknum offset (length content) content s ≡ done true s')
      × IsWritten e blocknum offset content s s'
unfolding writeblock open_or_create createblock addlist
writeblock-IsWritten e blocknum offset content s creates =
    let path = getpath e blocknum in
    let same = str_eq_refl path in
    elim (Option-cases (s.files path)) [
      | inr (f, there) ↦ (
        set_file path (write_at f offset content) s,
        rw (there, take-all_lem content) refl,
        record { old = f; stored = rw same refl; others = λ p ne. rw ne refl },
      )
      | inl missing ↦ (
        set_file path (write_at zeros offset content) (addlist e blocknum (set_file path zeros s)),
        rw (missing, creates, same, take-all_lem content) refl,
        record { old = zeros; stored = rw same refl; others = λ p ne. rw ne refl },
      )
    ]

readblock-found :
    (e : NodeEnv) (blocknum offset n : ℕ) (s : DNode) (f : File)
    → s.files (getpath e blocknum) ≡ some f
    → readblock e blocknum offset n s ≡ done (some (bytes_from n (read_at f offset e.junk) 0)) s
unfolding readblock getpath
readblock-found e blocknum offset n s f there = rw there refl

pub readblock-missing :
    (e : NodeEnv) (blocknum offset n : ℕ) (s : DNode)
    → s.files (getpath e blocknum) ≡ none
    → readblock e blocknum offset n s ≡ done none s
unfolding readblock getpath
readblock-missing e blocknum offset n s missing = rw missing refl

-- What is written to a block is read back from it, whether the block was there or is created. The
-- file of a block that is not there can be created.
pub readblock-writeblock :
    (e : NodeEnv) (blocknum offset : ℕ) (content : Bytes) (s : DNode)
    → e.creates (getpath e blocknum) ≡ true
    → (s' : DNode) × (writeblock e blocknum offset (length content) content s ≡ done true s')
      × (readblock e blocknum offset (length content) s' ≡ done (some content) s')
readblock-writeblock e blocknum offset content s creates =
    let (s', run, w) = writeblock-IsWritten e blocknum offset content s creates in
    (
      s',
      run,
      readblock-found e blocknum offset (length content) s' (write_at w.old offset content) w.stored
          ∙ ap (λ t. done (some t) s') (read_at-write_at w.old offset content e.junk),
    )

abbrev NoSlash : Bytes → Type 0
NoSlash = All (λ c. c ≢ b'/')

-- what stands behind the first slash
abbrev behind_slash : Bytes → Bytes
behind_slash [] = []
behind_slash (c ∷ s) = if c == b'/' then s else behind_slash s

behind_slash-append : (s t : Bytes) → NoSlash s → behind_slash (s ++ b'/' ∷ t) ≡ t
behind_slash-append [] t h = refl
behind_slash-append (c ∷ s) t (p, h) = rw (ne→==-false c b'/' p) (behind_slash-append s t h)

-- Different blocks have different files: the numbers are printed without a slash, and different
-- numbers differently.
pub getpath-ne :
    (e : NodeEnv) (m n : ℕ)
    → ((k : ℕ) → All (λ c. c ≢ b'/') (e.libc.sprintf (codes "%d") k))
    → (e.libc.sprintf (codes "%lld") m ≡ e.libc.sprintf (codes "%lld") n → m ≡ n)
    → m ≢ n
    → getpath e m ≢ getpath e n
unfolding getpath
getpath-ne e m n plain injective ne same =
    let print = e.libc.sprintf (codes "%lld") in
    let dir = λ (k : ℕ). e.libc.sprintf (codes "%d") (k % 100) in
    ne (
      injective (
        sym (behind_slash-append (dir m) (print m) (plain (m % 100)))
        ∙ (ap (λ p. behind_slash (drop 17 p)) same
            ∙ behind_slash-append (dir n) (print n) (plain (n % 100)))))

-- A write to one block leaves what is read from another block as it was; numbers are printed
-- without a slash and different numbers differently, and the file of a block that is not there can
-- be created.
pub writeblock-other :
    (e : NodeEnv) (blocknum offset : ℕ) (content : Bytes) (s : DNode) (other offset' n : ℕ)
    → e.creates (getpath e blocknum) ≡ true
    → ((k : ℕ) → All (λ c. c ≢ b'/') (e.libc.sprintf (codes "%d") k))
    → (e.libc.sprintf (codes "%lld") other ≡ e.libc.sprintf (codes "%lld") blocknum
        → other ≡ blocknum)
    → other ≢ blocknum
    → (s' : DNode) × (found : Option Bytes) × (writeblock e blocknum offset
          (length content)
          content
          s
        ≡ done true s')
      × (readblock e other offset' n s ≡ done found s)
      × (readblock e other offset' n s' ≡ done found s')
writeblock-other e blocknum offset content s other offset' n creates plain injective ne =
    let (s', run, w) = writeblock-IsWritten e blocknum offset content s creates in
    let apart =
      ne→str_eq-false (getpath e other) (getpath e blocknum)
        (getpath-ne e other blocknum plain injective ne) in
    let same = w.others (getpath e other) apart in
    elim (Option-cases (s.files (getpath e other))) [
      | inl missing ↦ (
        s',
        none,
        run,
        readblock-missing e other offset' n s missing,
        readblock-missing e other offset' n s' (same ∙ missing),
      )
      | inr (f, there) ↦ (
        s',
        some (bytes_from n (read_at f offset' e.junk) 0),
        run,
        readblock-found e other offset' n s f there,
        readblock-found e other offset' n s' f (same ∙ there),
      )
    ]
