-- ===== src/Node/Fields.antt =====
-- Texts in buffers of a fixed size, as d_node/haha/blockman.c writes them to the file of the list.
use sbpfs.Common.{
  ℕ, zero, suc, ◌+◌, ◌-◌, ◌≤◌, ◌<◌, ◌≡◌, ◌≢◌, refl, ap, ◌∙◌, arith, leb, ne→==-false, true,
  Bool-cases, inl, inr, none, some, [], ◌∷◌, ◌++◌, length, get_elem?, take, All, length-append,
}
use sbpfs.Common.Mem.{Mem, put, text_at, text_at-frame}
use sbpfs.Head.Strings.{Bytes}
use sbpfs.Node.Files.{File, write_at, bytes_from, field}

-- A C string that has room in `n` bytes.
pub record IsText (n : ℕ) (text : Bytes) : Type 0 where
  pub short : length text < n
  pub whole : All (λ c. c ≢ 0) text

-- The bytes of a text and then a 0.
text_at-text :
    (n : ℕ) (text : Bytes) (m : Mem) (a : ℕ)
    → IsText n text
    → ((j b : ℕ) → get_elem? text j ≡ some b → m (a + j) ≡ b)
    → m (a + length text) ≡ 0
    → text_at n m a ≡ text
unfolding text_at
text_at-text zero text m a ok same stops = absurd (omega (arith, ok.short))
text_at-text (suc n) [] m a ok same stops =
    let z : m a ≡ 0 = ap m (omega arith) ∙ stops in rw (text_at, z) refl
text_at-text (suc n) (c ∷ text) m a ok same stops =
    let first : m a ≡ c = ap m (omega arith) ∙ same 0 c refl in
    let rest =
      text_at-text n text m (a + 1) (record { short = omega (arith, ok.short); whole = ok.whole.1 })
        (λ j b h. ap m (omega arith) ∙ same (suc j) b h) (ap m (omega arith) ∙ stops) in
    rw (text_at, first, ne→==-false c 0 ok.whole.0, rest) refl

pub text_at-moved :
    (n : ℕ) (m m' : Mem) (a a' : ℕ)
    → ((k : ℕ) → k < n → m' (a' + k) ≡ m (a + k))
    → text_at n m' a' ≡ text_at n m a
unfolding text_at
text_at-moved zero m m' a a' same = refl
text_at-moved (suc n) m m' a a' same =
    let first : m' a' ≡ m a = ap m' (omega arith) ∙ (same 0 (omega arith) ∙ ap m (omega arith)) in
    let rest =
      text_at-moved n m m' (a + 1) (a' + 1)
        (λ k h. ap m' (omega arith) ∙ (same (k + 1) (omega arith) ∙ ap m (omega arith))) in
    rw (text_at, first, rest) refl

pub length-bytes_from : (n : ℕ) (m : Mem) (a : ℕ) → length (bytes_from n m a) ≡ n
unfolding bytes_from
length-bytes_from zero m a = refl
length-bytes_from (suc n) m a = ap suc (length-bytes_from n m (a + 1))

length-take_lem : (n : ℕ) (xs : Bytes) → n ≤ length xs → length (take n xs) ≡ n
length-take_lem zero xs h = refl
length-take_lem (suc n) [] h = absurd (omega (arith, h))
length-take_lem (suc n) (x ∷ xs) h = omega (arith, length-take_lem n xs (omega (arith, h)))

pub length-field : (n : ℕ) (text : Bytes) (junk : Mem) → length (field n text junk) ≡ n
unfolding field
length-field n text junk =
    length-take_lem n (text ++ 0 ∷ bytes_from n junk 0)
      (omega (arith, length-append text (0 ∷ bytes_from n junk 0), length-bytes_from n junk 0))

take-text :
    (n : ℕ) (text more : Bytes) (j b : ℕ)
    → length text < n
    → get_elem? text j ≡ some b
    → get_elem? (take n (text ++ more)) j ≡ some b
take-text n [] more j b h e = cc
take-text zero (c ∷ text) more j b h e = absurd (omega (arith, h))
take-text (suc n) (c ∷ text) more zero b h e = e
take-text (suc n) (c ∷ text) more (suc j) b h e = take-text n text more j b (omega (arith, h)) e

take-end :
    (n : ℕ) (text more : Bytes)
    → length text < n
    → get_elem? (take n (text ++ 0 ∷ more)) (length text) ≡ some 0
take-end zero text more h = absurd (omega (arith, h))
take-end (suc n) [] more h = refl
take-end (suc n) (c ∷ text) more h = take-end n text more (omega (arith, h))

put-in : (m : Mem) (d : ℕ) (bs : Bytes) (j b : ℕ) → get_elem? bs j ≡ some b → put m d bs (d + j) ≡ b
unfolding put
put-in m d bs j b h =
    let at : d + j - d ≡ j = omega arith in
    let in_it : leb d (d + j) ≡ true = ground arith in rw (put, in_it, at, h) refl

get_elem-outside : (xs : Bytes) (i : ℕ) → length xs ≤ i → get_elem? xs i ≡ none
get_elem-outside [] i h = refl
get_elem-outside (x ∷ xs) zero h = absurd (omega (arith, h))
get_elem-outside (x ∷ xs) (suc i) h = get_elem-outside xs i (omega (arith, h))

pub put-out :
    (m : Mem) (d : ℕ) (bs : Bytes) (a : ℕ) → (d ≤ a → d + length bs ≤ a) → put m d bs a ≡ m a
unfolding put
put-out m d bs a h = elim (Bool-cases (leb d a)) [
  | inl behind ↦ rw (put, behind, get_elem-outside bs (a - d) (ground (arith, behind, h))) refl
  | inr before ↦ rw (put, before) refl
]

-- A field that is written is read back as the text.
pub field-text :
    (f : File) (n d : ℕ) (text : Bytes) (junk : Mem)
    → IsText n text
    → text_at n (write_at f d (field n text junk)).bytes d ≡ text
unfolding write_at field
field-text f n d text junk ok =
    text_at-text n text _ d ok
      (λ j b h. put-in f.bytes d _ j b (take-text n text (0 ∷ bytes_from n junk 0) j b ok.short h))
      (put-in f.bytes d _ (length text) 0 (take-end n text (bytes_from n junk 0) ok.short))

-- A text elsewhere in the file stays.
pub write_at-other :
    (f : File) (d : ℕ) (bs : Bytes) (n a : ℕ)
    → ((b : ℕ) → a ≤ b → b < a + n → d ≤ b → d + length bs ≤ b)
    → text_at n (write_at f d bs).bytes a ≡ text_at n f.bytes a
unfolding write_at
write_at-other f d bs n a apart =
    text_at-frame n f.bytes (put f.bytes d bs) a (λ b p q. put-out f.bytes d bs b (apart b p q))
