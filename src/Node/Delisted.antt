-- ===== src/Node/Delisted.antt =====
-- `deletelist` of d_node/haha/blockman.c keeps the file of the list in step with the list.
use mathlib.Core.Path.{subst}
use sbpfs.Common.{
  ℕ, zero, suc, ◌+◌, ◌-◌, ◌≤◌, ◌≡◌, ◌≢◌, refl, sym, ap, ◌∙◌, arith, ◌==◌, true, ==→eq, Bool-cases,
  inl, inr, none, some, List, [], ◌∷◌, length, get_elem?, codes, str_eq, Option,
}
use sbpfs.Head.Strings.{Bytes}
use sbpfs.Node.Files.{
  DNode, NodeEnv, last_name, but_last, remove_name, del_place, name_or, deletelist, write_count,
  write_record,
}
use sbpfs.Node.Store.{str_eq→eq}
use sbpfs.Node.Names.{occurrences, occurrences-fill_gap, remove_name-absent}
use sbpfs.Node.Fields.{IsText}
use sbpfs.Node.Listed.{
  IsListed, IsCount, HoldsRecord-moved, write_count-record, write_count-count, write_record-record,
  write_record-other, write_record-count, sizes,
}

-- A name of a list.
abbrev IsName : List Bytes → Bytes → Type 0
IsName names x = (m : ℕ) × (get_elem? names m ≡ some x)

get_elem-but_last :
    (y : Bytes) (ys : List Bytes) (m : ℕ) (x : Bytes)
    → get_elem? (but_last y ys) m ≡ some x
    → get_elem? (y ∷ ys) m ≡ some x
get_elem-but_last y [] m x h = cc
get_elem-but_last y (z ∷ zs) zero x h = h
get_elem-but_last y (z ∷ zs) (suc m) x h = get_elem-but_last z zs m x h

last_name-IsName : (y : Bytes) (ys : List Bytes) → IsName (y ∷ ys) (last_name y ys)
last_name-IsName y [] = (0, refl)
last_name-IsName y (z ∷ zs) = let (m, h) = last_name-IsName z zs in (suc m, h)

length-but_last : (y : Bytes) (ys : List Bytes) → length (but_last y ys) ≡ length ys
length-but_last y [] = refl
length-but_last y (z ∷ zs) = ap suc (length-but_last z zs)

-- The list without one name, whose place `j` another name has taken.
record IsRemoved (p : Bytes) (names names' : List Bytes) (j : ℕ) : Type 0 where
  size : length names' + 1 ≡ length names
  there : get_elem? names j ≡ some p
  others :
      (m : ℕ) (x : Bytes)
      → get_elem? names' m ≡ some x
      → IsName names x × (m ≢ j → get_elem? names m ≡ some x)

del_place-absent :
    (k : ℕ) (p : Bytes) (names : List Bytes) (i : ℕ) (found : Option ℕ)
    → occurrences p names ≡ 0
    → del_place k p names i found ≡ found
unfolding del_place
del_place-absent zero p names i found h = refl
del_place-absent (suc k) p [] i found h = refl
del_place-absent (suc k) p (x ∷ xs) i found h = elim (Bool-cases (str_eq p x)) [
  | inl same ↦ absurd (ground (arith, same))
  | inr other ↦
      rw (del_place, other) (del_place-absent k p xs (i + 1) found (ground (arith, other)))
]

others_of-first :
    (x y : Bytes) (ys : List Bytes) (m : ℕ) (z : Bytes)
    → get_elem? (last_name y ys ∷ but_last y ys) m ≡ some z
    → IsName (x ∷ y ∷ ys) z × (m ≢ 0 → get_elem? (x ∷ y ∷ ys) m ≡ some z)
others_of-first x y ys zero z h =
    let (m, last) = last_name-IsName y ys in ((suc m, last ∙ h), λ ne. absurd (ne refl))
others_of-first x y ys (suc m) z h =
    let held = get_elem-but_last y ys m z h in ((suc m, held), λ ne. held)

-- A name in front of the one that is removed stays.
IsRemoved-suc :
    (p x : Bytes) (xs names' : List Bytes) (j : ℕ)
    → IsRemoved p xs names' j
    → IsRemoved p (x ∷ xs) (x ∷ names') (suc j)
IsRemoved-suc p x xs names' j r = record {
  size = omega (arith, r.size);
  there = r.there;
  others = others_behind;
}
  where
    others_behind :
        (m : ℕ) (z : Bytes)
        → get_elem? (x ∷ names') m ≡ some z
        → IsName (x ∷ xs) z × (m ≢ suc j → get_elem? (x ∷ xs) m ≡ some z)
    others_behind zero z h = ((0, h), λ ne. h)
    others_behind (suc m) z h =
        let ((n, at), same) = r.others m z h in ((suc n, at), λ ne. same (λ e. ne (ap suc e)))

remove_name-first :
    (k : ℕ) (p x : Bytes) (xs : List Bytes) (i : ℕ)
    → str_eq p x ≡ true
    → occurrences p xs ≡ 0
    → (del_place (suc k) p (x ∷ xs) i none ≡ some i)
      × IsRemoved p (x ∷ xs) (remove_name (suc k) p (x ∷ xs)) 0
unfolding remove_name del_place
remove_name-first k p x [] i same gone = (
  rw (del_place, same) refl,
  rw (remove_name, same)
      (record { size = refl; there = ap some (sym (str_eq→eq p x same)); others = λ m y h. cc }),
)
remove_name-first k p x (y ∷ ys) i same gone =
    let left : occurrences p (but_last y ys) ≡ 0 =
      omega (arith, occurrences-fill_gap p y ys, gone) in
    let rest = remove_name-absent k p (but_last y ys) left in
    (
      rw (del_place, same) (del_place-absent k p (but_last y ys) (i + 1) (some i) left),
      rw (remove_name, same, rest)
          (record {
            size = omega (arith, length-but_last y ys);
            there = ap some (sym (str_eq→eq p x same));
            others = others_of-first x y ys;
          }),
    )

remove_name-IsRemoved :
    (k : ℕ) (p : Bytes) (names : List Bytes) (i : ℕ)
    → length names ≤ k
    → occurrences p names ≡ 1
    → (j : ℕ) × (del_place k p names i none ≡ some (i + j))
      × IsRemoved p names (remove_name k p names) j
unfolding remove_name del_place
remove_name-IsRemoved k p [] i enough once = absurd (omega (arith, once))
remove_name-IsRemoved zero p (x ∷ xs) i enough once = absurd (omega (arith, enough))
remove_name-IsRemoved (suc k) p (x ∷ xs) i enough once = elim (Bool-cases (str_eq p x)) [
  | inl same ↦
      let (place, r) = remove_name-first k p x xs i same (ground (arith, same, once)) in
      (0, place ∙ ap some (omega arith), r)
  | inr other ↦
      let (j, place, r) =
        remove_name-IsRemoved k p xs (i + 1) (omega (arith, enough))
          (ground (arith, other, once)) in
      (
        suc j,
        rw (del_place, other) (place ∙ ap some (omega arith)),
        rw (remove_name, other) (IsRemoved-suc p x xs (remove_name k p xs) j r),
      )
]

module _ (e : NodeEnv) (blocknum : ℕ) (s : DNode) where
  abbrev p : Bytes
  p = e.libc.sprintf (codes "%lld") blocknum

  abbrev names' : List Bytes
  names' = remove_name (length s.blocklist) p s.blocklist

  deletelist-delisted :
      (i : ℕ)
      → del_place (length s.blocklist) p s.blocklist 0 none ≡ some i
      → deletelist e blocknum s ≡ record s {
        blocklist = names';
        listing =
            write_record e i
              (name_or p (get_elem? names' i))
              (write_count e (length names') s.listing);
      }
  unfolding deletelist
  deletelist-delisted i place = rw (deletelist, place) refl

  name_or-IsText :
      (i : ℕ)
      → IsListed e s
      → IsRemoved p s.blocklist names' i
      → (o : Option Bytes) → get_elem? names' i ≡ o
      → IsText 64 (name_or p o)
  name_or-IsText i ok r none h = (ok.records i p r.there).1
  name_or-IsText i ok r (some x) h = let ((m, at), _) = r.others i x h in (ok.records m x at).1

  delisted-IsListed :
      (i : ℕ)
      → IsListed e s
      → IsRemoved p s.blocklist names' i
      → IsCount e (length names')
      → IsListed e (record s {
        blocklist = names';
        listing =
            write_record e i
              (name_or p (get_elem? names' i))
              (write_count e (length names') s.listing);
      })
  delisted-IsListed i ok r counted =
      let name = name_or p (get_elem? names' i) in
      let f = write_count e (length names') s.listing in
      let text = name_or-IsText i ok r (get_elem? names' i) refl in
      record {
        sized = omega (arith, ok.sized, sizes e e (length names') i name s.listing);
        count =
            ap e.atoi (write_record-count e i name f)
            ∙ write_count-count e (length names') s.listing counted;
        records = λ m x h.
            let ((n, at), same) = r.others m x h in
            elim (Bool-cases (m == i)) [
              | inl here ↦
                  let at_i = ==→eq m i here in
                  let new : get_elem? names' i ≡ some x = ap (get_elem? names') (sym at_i) ∙ h in
                  let (big, held) = write_record-record e i name f text in
                  (
                    HoldsRecord-moved (write_record e i name f) m i x at_i
                        (big, held ∙ ap (name_or p) new),
                    (ok.records n x at).1,
                  )
              | inr elsewhere ↦
                  let ne : m ≢ i = λ e'. ground (arith, elsewhere, e') in
                  let (kept, short) = ok.records m x (same ne) in
                  (
                    write_record-other e i name f m x ne
                        (write_count-record e (length names') s.listing m x kept),
                    short,
                  )
            ];
      }

  -- `deletelist` of a block whose name is in the list once keeps the file of the list in step with
  -- the list: the new count, and every name at its place. `atoi` reads the new count that is printed.
  pub deletelist-IsListed :
      IsListed e s
      → occurrences p s.blocklist ≡ 1
      → IsCount e (length s.blocklist - 1)
      → IsListed e (deletelist e blocknum s)
  deletelist-IsListed ok once counted =
      let (i, place, r) =
        remove_name-IsRemoved (length s.blocklist) p s.blocklist 0 (omega arith) once in
      let less : length s.blocklist - 1 ≡ length names' = omega (arith, r.size) in
      subst (IsListed e) (sym (deletelist-delisted i (place ∙ ap some (omega arith))))
        (delisted-IsListed i ok r (subst (IsCount e) less counted))
