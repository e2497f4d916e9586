-- ===== src/Node/Names.antt =====
-- `deletelist` of d_node/haha/blockman.c takes one name out of the list of blocks.
use sbpfs.Common.{
  ℕ, zero, suc, ◌+◌, ◌≤◌, ◌≡◌, refl, sym, ap, ◌∙◌, arith, true, false, if◌then◌else◌, List, [], ◌∷◌,
  length, str_eq, codes, Bool-cases, inl, inr,
}
use sbpfs.Head.Strings.{Bytes}
use sbpfs.Node.Files.{NodeEnv, DNode, last_name, but_last, remove_name, deletelist}
use sbpfs.Node.Store.{str_eq→eq}

-- how often a name is in a list
abbrev pub occurrences : Bytes → List Bytes → ℕ
occurrences q [] = 0
occurrences q (x ∷ xs) = (if str_eq q x then 1 else 0) + occurrences q xs

pub occurrences-fill_gap :
    (q y : Bytes) (ys : List Bytes)
    → occurrences q (last_name y ys ∷ but_last y ys) ≡ occurrences q (y ∷ ys)
occurrences-fill_gap q y [] = refl
occurrences-fill_gap q y (z ∷ zs) = omega (arith, occurrences-fill_gap q z zs)

pub remove_name-absent :
    (k : ℕ) (p : Bytes) (names : List Bytes)
    → occurrences p names ≡ 0
    → remove_name k p names ≡ names
unfolding remove_name
remove_name-absent zero p names h = refl
remove_name-absent (suc k) p [] h = refl
remove_name-absent (suc k) p (x ∷ xs) h = elim (Bool-cases (str_eq p x)) [
  | inl same ↦ absurd (ground (arith, same))
  | inr other ↦ rw other (ap (λ l. x ∷ l) (remove_name-absent k p xs (ground (arith, other))))
]

-- The name in front is the one: the last name takes its place.
remove_name-front :
    (k : ℕ) (p x : Bytes) (xs : List Bytes) (q : Bytes)
    → str_eq p x ≡ true
    → occurrences p xs ≡ 0
    → occurrences q (remove_name (suc k) p (x ∷ xs)) ≡ occurrences q xs
unfolding remove_name
remove_name-front k p x [] q same none_left = rw same refl
remove_name-front k p x (y ∷ ys) q same none_left =
    let rest =
      remove_name-absent k p (but_last y ys)
        (omega (arith, occurrences-fill_gap p y ys, none_left)) in
    rw (same, rest) (occurrences-fill_gap q y ys)

remove_name-occurrences :
    (k : ℕ) (p : Bytes) (names : List Bytes) (q : Bytes)
    → length names ≤ k
    → occurrences p names ≤ 1
    → occurrences q (remove_name k p names) ≡ (if str_eq q p then 0 else occurrences q names)
unfolding remove_name
remove_name-occurrences zero p [] q enough once = ground arith
remove_name-occurrences zero p (x ∷ xs) q enough once = absurd (omega (arith, enough))
remove_name-occurrences (suc k) p [] q enough once = ground arith
remove_name-occurrences (suc k) p (x ∷ xs) q enough once = elim (Bool-cases (str_eq p x)) [
  | inl same ↦
      let none_left : occurrences p xs ≡ 0 = ground (arith, same, once) in
      remove_name-front k p x xs q same none_left ∙ elim (Bool-cases (str_eq q p)) [
        | inl it ↦
            let gone : occurrences q xs ≡ 0 =
              ap (λ n. occurrences n xs) (str_eq→eq q p it) ∙ none_left in
            rw it gone
        | inr differs ↦
            let apart : str_eq q x ≡ false = ap (str_eq q) (sym (str_eq→eq p x same)) ∙ differs in
            rw (differs, apart) (omega arith)
      ]
  | inr other ↦
      let once' : occurrences p xs ≤ 1 = ground (arith, other, once) in
      let rest = remove_name-occurrences k p xs q (omega (arith, enough)) once' in
      elim (Bool-cases (str_eq q p)) [
        | inl it ↦
            let apart : str_eq q x ≡ false = ap (λ n. str_eq n x) (str_eq→eq q p it) ∙ other in
            ground (arith, rest, it, apart, other)
        | inr differs ↦ ground (arith, rest, differs, other)
      ]
]

-- `deletelist` takes the name of the block out of the list, where it stands there once at most, and
-- leaves every other name as often as it is there; the order may change.
pub deletelist-occurrences :
    (e : NodeEnv) (blocknum : ℕ) (s : DNode) (q : Bytes)
    → occurrences (e.libc.sprintf (codes "%lld") blocknum) s.blocklist ≤ 1
    → occurrences q (deletelist e blocknum s).blocklist
      ≡ (if str_eq q (e.libc.sprintf (codes "%lld") blocknum) then 0 else occurrences q s.blocklist)
unfolding deletelist
deletelist-occurrences e blocknum s q once =
    remove_name-occurrences (length s.blocklist) (e.libc.sprintf (codes "%lld") blocknum)
      s.blocklist q (omega arith) once
