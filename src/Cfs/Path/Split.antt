-- ===== src/Cfs/Path/Split.antt =====
-- `get_filename_from_path` of c_node/fs/cfs.c takes a path apart at its last slash.
use native.Mathlib.Numerals.{add-one}
use sbpfs.Common.{
  ℕ, suc, ◌+◌, ◌≡◌, ◌≢◌, refl, ap, ◌∙◌, arith, Option, none, some, ◌==◌, if◌then◌else◌, List, [],
  ◌∷◌, ◌++◌, length, take, drop, All, ne→==-false,
}
use sbpfs.Cfs.Path.{last_slash, trim_slash, cut_at, get_filename_from_path}

abbrev pub NoSlash : List ℕ → Type 0
NoSlash = All (λ c. c ≢ b'/')

-- Behind the last slash the loop keeps what it has.
last_slash-name :
    (name : List ℕ) (i : ℕ) (last : Option ℕ) → NoSlash name → last_slash name i last ≡ last
unfolding last_slash
last_slash-name [] i last h = refl
last_slash-name (c ∷ []) i last h = refl
last_slash-name (c ∷ d ∷ s) i last (p, h) =
    rw (ne→==-false c b'/' p) (last_slash-name (d ∷ s) (i + 1) last h)

last_slash-trailing :
    (name : List ℕ) (i : ℕ) (last : Option ℕ)
    → NoSlash name
    → last_slash (name ++ b'/' ∷ []) i last ≡ last
unfolding last_slash
last_slash-trailing [] i last h = refl
last_slash-trailing (c ∷ []) i last (p, h) = rw (ne→==-false c b'/' p)
last_slash-trailing (c ∷ d ∷ s) i last (p, h) =
    rw (ne→==-false c b'/' p) (last_slash-trailing (d ∷ s) (i + 1) last h)

last_slash-cons :
    (d c : ℕ) (s : List ℕ) (i : ℕ) (last : Option ℕ)
    → last_slash (d ∷ c ∷ s) i last
      ≡ last_slash (c ∷ s) (i + 1) (if d == b'/' then some i else last)
unfolding last_slash
last_slash-cons d c s i last = refl

-- The slash before a rest in which the loop finds no other is the one it keeps.
last_slash-dir :
    (dir : List ℕ) (c : ℕ) (s : List ℕ) (i : ℕ) (last : Option ℕ)
    → ((j : ℕ) (l : Option ℕ) → last_slash (c ∷ s) j l ≡ l)
    → last_slash (dir ++ b'/' ∷ c ∷ s) i last ≡ some (i + length dir)
last_slash-dir [] c s i last h =
    last_slash-cons b'/' c s i last ∙ (h (i + 1) (some i) ∙ ap some (omega arith))
last_slash-dir (d ∷ []) c s i last h =
    last_slash-cons d b'/' (c ∷ s) i last
    ∙ (last_slash-dir [] c s (i + 1) _ h ∙ ap some (omega arith))
last_slash-dir (d ∷ d' ∷ dir) c s i last h =
    last_slash-cons d d' (dir ++ b'/' ∷ c ∷ s) i last
    ∙ (last_slash-dir (d' ∷ dir) c s (i + 1) _ h ∙ ap some (omega arith))

-- A path that a slash does not end is left whole, and one that it ends loses the slash.
trim_slash-name : (name : List ℕ) → NoSlash name → trim_slash name ≡ name
unfolding trim_slash
trim_slash-name [] h = refl
trim_slash-name (c ∷ []) (p, h) = rw (ne→==-false c b'/' p)
trim_slash-name (c ∷ d ∷ s) (p, h) = ap (λ t. c ∷ t) (trim_slash-name (d ∷ s) h)

trim_slash-trailing : (name : List ℕ) → trim_slash (name ++ b'/' ∷ []) ≡ name
unfolding trim_slash
trim_slash-trailing [] = refl
trim_slash-trailing (c ∷ []) = refl
trim_slash-trailing (c ∷ d ∷ s) = ap (λ t. c ∷ t) (trim_slash-trailing (d ∷ s))

trim_slash-append :
    (dir : List ℕ) (c : ℕ) (s : List ℕ) → trim_slash (dir ++ c ∷ s) ≡ dir ++ trim_slash (c ∷ s)
unfolding trim_slash
trim_slash-append [] c s = refl
trim_slash-append (d ∷ []) c s = refl
trim_slash-append (d ∷ d' ∷ dir) c s = ap (λ t. d ∷ t) (trim_slash-append (d' ∷ dir) c s)

take-dir : (dir rest : List ℕ) → take (length dir) (dir ++ rest) ≡ dir
take-dir [] rest = refl
take-dir (d ∷ dir) rest = ap (λ s. d ∷ s) (take-dir dir rest)

drop-dir : (dir : List ℕ) (c : ℕ) (rest : List ℕ) → drop (suc (length dir)) (dir ++ c ∷ rest) ≡ rest
drop-dir [] c rest = refl
drop-dir (d ∷ dir) c rest = drop-dir dir c rest

get_filename-parts :
    (path : List ℕ) (last : ℕ) (trimmed dir name : List ℕ)
    → last_slash path 0 none ≡ some last
    → trim_slash path ≡ trimmed
    → take last path ≡ dir
    → drop (last + 1) trimmed ≡ name
    → get_filename_from_path path ≡ some (dir, name)
unfolding get_filename_from_path
get_filename-parts path last trimmed dir name e1 e2 e3 e4 =
    ap (cut_at path) e1 ∙ λ i. some (e3 i, (ap (drop (last + 1)) e2 ∙ e4) i)

-- A directory's path and a name behind a slash come apart into the two, whatever the directory's
-- path holds, and a slash behind the name makes no difference. The name is not empty and holds no
-- slash.
pub get_filename_from_path-slash :
    (dir : List ℕ) (c : ℕ) (s : List ℕ)
    → NoSlash (c ∷ s)
    → (get_filename_from_path (dir ++ b'/' ∷ c ∷ s) ≡ some (dir, c ∷ s))
      × (get_filename_from_path (dir ++ b'/' ∷ c ∷ (s ++ b'/' ∷ [])) ≡ some (dir, c ∷ s))
unfolding trim_slash
get_filename_from_path-slash dir c s h = (
  get_filename-parts _ (length dir) (dir ++ b'/' ∷ c ∷ s) dir (c ∷ s)
      (last_slash-dir dir c s 0 none (λ j l. last_slash-name (c ∷ s) j l h) ∙ ap some (omega arith))
      (trim_slash-append dir b'/' (c ∷ s) ∙ ap (λ t. dir ++ b'/' ∷ t) (trim_slash-name (c ∷ s) h))
      (take-dir dir (b'/' ∷ c ∷ s)) (rw add-one (drop-dir dir b'/' (c ∷ s))),
  get_filename-parts _ (length dir) (dir ++ b'/' ∷ c ∷ s) dir (c ∷ s)
      (last_slash-dir dir c (s ++ b'/' ∷ []) 0 none (λ j l. last_slash-trailing (c ∷ s) j l h)
        ∙ ap some (omega arith))
      (trim_slash-append dir b'/' (c ∷ (s ++ b'/' ∷ []))
        ∙ ap (λ t. dir ++ b'/' ∷ t) (trim_slash-trailing (c ∷ s)))
      (take-dir dir (b'/' ∷ c ∷ (s ++ b'/' ∷ []))) (rw add-one (drop-dir dir b'/' (c ∷ s))),
)
