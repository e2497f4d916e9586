-- ===== src/Head/Search.antt =====
-- What the searches of `decode_head` in libc/lib.c find in a head of clean lines.
use mathlib.Core.List.{append_assoc, append-nil}
use sbpfs.Common.{
  ℕ, ◌≡◌, ◌≢◌, refl, sym, ap, ◌∙◌, arith, true, false, Option, some, List, [], ◌∷◌, ◌++◌, All,
  ne→==-false,
}
use sbpfs.Head.Strings.{Bytes, starts_with, strstr, cons_before}
use sbpfs.Head.{crlf, header_flag, colon, HeadEntry}

-- A byte that ends neither a string nor a line.
abbrev pub IsPlain : ℕ → Type 0
IsPlain c = (c ≢ 0) × (c ≢ 13)

-- An entry whose name and value keep to their line, with no colon in the name.
pub record IsClean (e : HeadEntry) : Type 0 where
  pub name : All IsPlain e.name
  pub no_colon : All (λ c. c ≢ b':') e.name
  pub value : All IsPlain e.value

unfoldable pub line : HeadEntry → Bytes
line e = e.name ++ (colon ++ e.value)

-- The entries as lines, with the empty line at their end.
unfoldable pub render : List HeadEntry → Bytes
unfolding line
render [] = crlf
render (e ∷ es) = line e ++ (crlf ++ render es)

abbrev pub prepend : Bytes → Option (Bytes × Bytes) → Option (Bytes × Bytes)
prepend [] o = o
prepend (c ∷ p) o = cons_before c (prepend p o)

pub prepend-some : (p b r : Bytes) → prepend p (some (b, r)) ≡ some (p ++ b, r)
prepend-some [] b r = refl
prepend-some (c ∷ p) b r = ap (cons_before c) (prepend-some p b r)

pub All-append {κ} : (P : ℕ → Type κ) (xs ys : Bytes) → All P xs → All P ys → All P (xs ++ ys)
All-append P [] ys _ h = h
All-append P (x ∷ xs) ys (p, hx) h = (p, All-append P xs ys hx h)

pub line-plain : (e : HeadEntry) → IsClean e → All IsPlain (line e)
unfolding line
line-plain e c =
    All-append IsPlain e.name (colon ++ e.value) c.name (omega arith, (omega arith, c.value))

-- A search passes bytes that the needle does not start with.
pub strstr-skip :
    (n : ℕ) (needle pre rest : Bytes)
    → All (λ c. c ≢ 0) pre
    → All (λ c. c ≢ n) pre
    → strstr (n ∷ needle) (pre ++ rest) ≡ prepend pre (strstr (n ∷ needle) rest)
unfolding strstr starts_with
strstr-skip n needle [] rest _ _ = refl
strstr-skip n needle (c ∷ pre) rest (z, hz) (d, hd) =
    rw (ne→==-false c 0 z, ne→==-false n c (λ e. d (sym e)))
      (ap (cons_before c) (strstr-skip n needle pre rest hz hd))

starts_with-append : (p rest : Bytes) → starts_with p (p ++ rest) ≡ true
unfolding starts_with
starts_with-append [] rest = refl
starts_with-append (c ∷ p) rest = ground (arith, starts_with-append p rest)

-- A search ends where the needle stands.
strstr-here :
    (n : ℕ) (needle rest : Bytes)
    → n ≢ 0
    → strstr (n ∷ needle) (n ∷ (needle ++ rest)) ≡ some ([], n ∷ (needle ++ rest))
unfolding strstr
strstr-here n needle rest z = rw (ne→==-false n 0 z, starts_with-append (n ∷ needle) rest)

strstr-found :
    (n : ℕ) (needle pre rest : Bytes)
    → n ≢ 0
    → All (λ c. c ≢ 0) pre
    → All (λ c. c ≢ n) pre
    → strstr (n ∷ needle) (pre ++ (n ∷ (needle ++ rest))) ≡ some (pre, n ∷ (needle ++ rest))
strstr-found n needle pre rest z hz hd =
    strstr-skip n needle pre _ hz hd
    ∙ (ap (prepend pre) (strstr-here n needle rest z)
        ∙ (prepend-some pre [] _ ∙ ap (λ p. some (p, n ∷ (needle ++ rest))) (append-nil pre)))

pub plain-nonzero : (s : Bytes) → All IsPlain s → All (λ c. c ≢ 0) s
plain-nonzero [] h = tt
plain-nonzero (c ∷ s) (p, h) = (p.0, plain-nonzero s h)

pub plain-no_return : (s : Bytes) → All IsPlain s → All (λ c. c ≢ 13) s
plain-no_return [] h = tt
plain-no_return (c ∷ s) (p, h) = (p.1, plain-no_return s h)

pub strstr-crlf :
    (s rest : Bytes) → All IsPlain s → strstr crlf (s ++ (crlf ++ rest)) ≡ some (s, crlf ++ rest)
strstr-crlf s rest h =
    strstr-found 13 (10 ∷ []) s rest (λ e. absurd (omega arith)) (plain-nonzero s h)
      (plain-no_return s h)

pub strstr-colon :
    (e : HeadEntry) → IsClean e → strstr colon (line e) ≡ some (e.name, colon ++ e.value)
unfolding line
strstr-colon e c =
    strstr-found b':' (32 ∷ []) e.name e.value (λ z. absurd (omega arith))
      (plain-nonzero e.name c.name) c.no_colon

-- What stands before the empty line, from the end of the title on.
pub gap : List HeadEntry → Bytes
gap [] = []
gap (e ∷ es) = crlf ++ (line e ++ gap es)

pub gap-render : (es : List HeadEntry) → gap es ++ header_flag ≡ crlf ++ render es
unfolding gap render
gap-render [] = refl
gap-render (e ∷ es) =
    ap (λ s. crlf ++ s)
      (append_assoc (line e) (gap es) header_flag ∙ ap (λ s. line e ++ s) (gap-render es))

strstr-step :
    (needle : Bytes) (c : ℕ) (text : Bytes)
    → c ≢ 0
    → starts_with needle (c ∷ text) ≡ false
    → strstr needle (c ∷ text) ≡ cons_before c (strstr needle text)
unfolding strstr
strstr-step needle c text z h = rw (ne→==-false c 0 z, h)

header_not_here : (c : ℕ) (s : Bytes) → c ≢ 13 → starts_with header_flag (13 ∷ 10 ∷ c ∷ s) ≡ false
unfolding starts_with
header_not_here c s h = ground arith

-- A line that is not empty holds no end of the head.
strstr-line :
    (s rest : Bytes)
    → s ≢ []
    → All IsPlain s
    → strstr header_flag (crlf ++ (s ++ rest)) ≡ prepend (crlf ++ s) (strstr header_flag rest)
strstr-line [] rest ne h = absurd (ne refl)
strstr-line (c ∷ s) rest ne (p, h) =
    strstr-step header_flag 13 (10 ∷ (c ∷ s ++ rest)) (omega arith)
      (header_not_here c (s ++ rest) p.1)
    ∙ ap (cons_before 13) (
        strstr-step header_flag 10 (c ∷ s ++ rest) (omega arith) (unfold starts_with in refl)
        ∙ ap (cons_before 10) (
            strstr-skip 13 (10 ∷ 13 ∷ 10 ∷ []) (c ∷ s) rest (plain-nonzero (c ∷ s) (p, h))
              (plain-no_return (c ∷ s) (p, h))))

append-ne-nil : (xs : Bytes) (c : ℕ) (ys : Bytes) → xs ++ c ∷ ys ≢ []
append-ne-nil [] c ys h = cc
append-ne-nil (x ∷ xs) c ys h = cc

pub line-ne-nil : (e : HeadEntry) → line e ≢ []
unfolding line
line-ne-nil e = append-ne-nil e.name b':' (32 ∷ e.value)

pub strstr-gap :
    (es : List HeadEntry) (body : Bytes)
    → All IsClean es
    → strstr header_flag (crlf ++ (render es ++ body)) ≡ some (gap es, header_flag ++ body)
unfolding gap render
strstr-gap [] body h = strstr-here 13 (10 ∷ 13 ∷ 10 ∷ []) body (omega arith)
strstr-gap (e ∷ es) body (c, h) =
    ap (λ s. strstr header_flag (crlf ++ s)) (append_assoc (line e) (crlf ++ render es) body)
    ∙ (strstr-line (line e) (crlf ++ (render es ++ body)) (line-ne-nil e) (line-plain e c)
        ∙ (ap (prepend (crlf ++ line e)) (strstr-gap es body h)
            ∙ prepend-some (crlf ++ line e) (gap es) (header_flag ++ body)))
