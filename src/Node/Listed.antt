-- ===== src/Node/Listed.antt =====
-- The file of the list of blocks of d_node/haha/blockman.c holds the list that the node has in memory.
use mathlib.Core.Path.{subst}
use sbpfs.Common.{
  ℕ, zero, suc, ◌+◌, ◌*◌, ◌≤◌, ◌<◌, ◌≡◌, ◌≢◌, refl, sym, ap, ◌∙◌, arith, ◌⊎◌, inl, inr, some, List,
  [], ◌∷◌, ◌++◌, length, get_elem?, codes, length-append,
}
use sbpfs.Common.Mem.{text_at}
use sbpfs.Head.Strings.{Bytes}
use sbpfs.Common.Mem.{Mem}
use sbpfs.Node.Files.{
  File, DNode, NodeEnv, write_at, field, write_count, write_record, bytes_from, addlist,
}
use sbpfs.Node.Fields.{IsText, field-text, length-field, write_at-other}

-- What stands in the file at a place of the list.
abbrev pub HoldsRecord : File → ℕ → Bytes → Type 0
HoldsRecord f i name = ((i + 2) * 64 ≤ f.size) × (text_at 64 f.bytes ((i + 1) * 64) ≡ name)

abbrev count_text : NodeEnv → ℕ → Bytes
count_text e n = e.libc.sprintf (codes "%lld") n

-- The first four bytes of the file say how many names there are, and every name stands at its place.
pub record IsListed (e : NodeEnv) (s : DNode) : Type 0 where
  pub sized : 4 ≤ s.listing.size
  pub count : e.atoi (text_at 4 s.listing.bytes 0) ≡ length s.blocklist
  pub records :
      (i : ℕ) (name : Bytes)
      → get_elem? s.blocklist i ≡ some name
      → HoldsRecord s.listing i name × IsText 64 name

-- A number of blocks that is printed in four bytes and read back.
pub record IsCount (e : NodeEnv) (n : ℕ) : Type 0 where
  pub text : IsText 4 (count_text e n)
  pub read : e.atoi (count_text e n) ≡ n

write_at-size : (f : File) (d : ℕ) (bs : Bytes) → f.size ≤ (write_at f d bs).size
unfolding write_at
write_at-size f d bs = ground arith

write_at-reaches : (f : File) (d : ℕ) (bs : Bytes) → d + length bs ≤ (write_at f d bs).size
unfolding write_at
write_at-reaches f d bs = ground arith

pub write_count-count :
    (e : NodeEnv) (n : ℕ) (f : File)
    → IsCount e n
    → e.atoi (text_at 4 (write_count e n f).bytes 0) ≡ n
unfolding write_count
write_count-count e n f ok = ap e.atoi (field-text f 4 0 (count_text e n) e.junk ok.text) ∙ ok.read

pub write_count-record :
    (e : NodeEnv) (n : ℕ) (f : File) (i : ℕ) (name : Bytes)
    → HoldsRecord f i name
    → HoldsRecord (write_count e n f) i name
unfolding write_count
write_count-record e n f i name (big, held) =
    let size = length-field 4 (count_text e n) e.junk in
    (
      omega (arith, big, write_at-size f 0 (field 4 (count_text e n) e.junk)),
      write_at-other f 0 (field 4 (count_text e n) e.junk) 64 ((i + 1) * 64)
            (λ b p q r. omega (arith, size))
          ∙ held,
    )

pub write_record-record :
    (e : NodeEnv) (i : ℕ) (name : Bytes) (f : File)
    → IsText 64 name
    → HoldsRecord (write_record e i name f) i name
unfolding write_record
write_record-record e i name f ok = (
  omega (
    arith,
    length-field 64 name e.junk,
    write_at-reaches f ((i + 1) * 64) (field 64 name e.junk),
  ),
  field-text f 64 ((i + 1) * 64) name e.junk ok,
)

pub write_record-other :
    (e : NodeEnv) (i : ℕ) (name : Bytes) (f : File) (j : ℕ) (other : Bytes)
    → j ≢ i
    → HoldsRecord f j other
    → HoldsRecord (write_record e i name f) j other
unfolding write_record
write_record-other e i name f j other ne (big, held) =
    let size = length-field 64 name e.junk in
    (
      omega (arith, big, write_at-size f ((i + 1) * 64) (field 64 name e.junk)),
      write_at-other f ((i + 1) * 64) (field 64 name e.junk) 64 ((j + 1) * 64)
            (λ b p q r. omega (arith, size, ne))
          ∙ held,
    )

pub write_record-count :
    (e : NodeEnv) (i : ℕ) (name : Bytes) (f : File)
    → text_at 4 (write_record e i name f).bytes 0 ≡ text_at 4 f.bytes 0
unfolding write_record
write_record-count e i name f =
    write_at-other f ((i + 1) * 64) (field 64 name e.junk) 4 0 (λ b p q r. absurd (omega arith))

pub HoldsRecord-moved :
    (f : File) (i j : ℕ) (name : Bytes) → i ≡ j → HoldsRecord f j name → HoldsRecord f i name
HoldsRecord-moved f i j name same (big, held) =
    (omega arith, ap (λ k. text_at 64 f.bytes ((k + 1) * 64)) same ∙ held)

pub sizes :
    (e e' : NodeEnv) (n i : ℕ) (name : Bytes) (f : File)
    → f.size ≤ (write_record e' i name (write_count e n f)).size
unfolding write_record write_count
sizes e e' n i name f = ground arith

get_elem-append :
    (xs : List Bytes) (x : Bytes) (i : ℕ) (name : Bytes)
    → get_elem? (xs ++ x ∷ []) i ≡ some name
    → (i < length xs) × (get_elem? xs i ≡ some name) ⊎ (i ≡ length xs) × (x ≡ name)
get_elem-append [] x zero name h = inr (refl, cc)
get_elem-append [] x (suc i) name h = cc
get_elem-append (y ∷ xs) x zero name h = inl (omega arith, h)
get_elem-append (y ∷ xs) x (suc i) name h = elim (get_elem-append xs x i name h) [
  | inl (inside, held) ↦ inl (omega arith, held)
  | inr (at_end, same) ↦ inr (omega arith, same)
]

-- A node after a name has been written to its record, with any bytes behind it.
abbrev added : NodeEnv → Mem → Bytes → DNode → DNode
added e rest name s = record s {
  blocklist = s.blocklist ++ name ∷ [];
  listing =
      write_record (record e { junk = rest }) (length s.blocklist) name
        (write_count e (length s.blocklist + 1) s.listing);
}

added-IsListed :
    (e : NodeEnv) (rest : Mem) (name : Bytes) (s : DNode)
    → IsListed e s
    → IsText 64 name
    → IsCount e (length s.blocklist + 1)
    → IsListed e (added e rest name s)
added-IsListed e rest name s ok text counted =
    let e' : NodeEnv = record e { junk = rest } in
    let bnum = length s.blocklist in
    let f = write_count e (bnum + 1) s.listing in
    record {
      sized = omega (arith, ok.sized, sizes e e' (bnum + 1) bnum name s.listing);
      count =
          ap e.atoi (write_record-count e' bnum name f)
          ∙ (write_count-count e (bnum + 1) s.listing counted
              ∙ sym (length-append s.blocklist (name ∷ [])));
      records = λ i x h. elim (get_elem-append s.blocklist name i x h) [
        | inl (inside, old) ↦ (
          write_record-other e' bnum name f i x (λ same. omega arith)
              (write_count-record e (bnum + 1) s.listing i x (ok.records i x old).0),
          (ok.records i x old).1,
        )
        | inr (at_end, same) ↦
            let (big, held) = write_record-record e' bnum name f text in
            (
              HoldsRecord-moved (write_record e' bnum name f) i bnum x at_end (big, held ∙ same),
              subst (IsText 64) same text,
            )
      ];
    }

-- When `addlist` writes the record, the name still stands at `p`, with its end: the count has not been
-- printed over it.
pub record IsIntact (e : NodeEnv) (name count : Bytes) : Type 0 where
  pub rest : Mem
  pub same : bytes_from 64 (e.stack name count) 0 ≡ field 64 name rest

addlist-added :
    (e : NodeEnv) (blocknum : ℕ) (s : DNode)
    (intact : IsIntact e
      (e.libc.sprintf (codes "%lld") blocknum)
      (e.libc.sprintf (codes "%lld") (length s.blocklist + 1)))
    → added e intact.rest (e.libc.sprintf (codes "%lld") blocknum) s ≡ addlist e blocknum s
unfolding addlist write_record
addlist-added e blocknum s intact = λ i. record s {
  blocklist = s.blocklist ++ e.libc.sprintf (codes "%lld") blocknum ∷ [];
  listing =
      write_at (write_count e (length s.blocklist + 1) s.listing) ((length s.blocklist + 1) * 64)
        (sym intact.same i);
}

-- `addlist` keeps the file of the list in step with the list: the file goes on to hold the count and
-- every name at its place. The new name has room in a record and is intact when it is written, the new
-- count has room in four bytes, and `atoi` reads the count that is printed.
pub addlist-IsListed :
    (e : NodeEnv) (blocknum : ℕ) (s : DNode)
    → IsListed e s
    → IsText 64 (e.libc.sprintf (codes "%lld") blocknum)
    → IsIntact e
        (e.libc.sprintf (codes "%lld") blocknum)
        (e.libc.sprintf (codes "%lld") (length s.blocklist + 1))
    → IsCount e (length s.blocklist + 1)
    → IsListed e (addlist e blocknum s)
addlist-IsListed e blocknum s ok text intact counted =
    subst (IsListed e) (addlist-added e blocknum s intact)
      (added-IsListed e intact.rest (e.libc.sprintf (codes "%lld") blocknum) s ok text counted)
