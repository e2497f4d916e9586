-- ===== src/Head/RoundTrip.antt =====
-- `decode_head` of libc/lib.c reads back what `make_head` writes.
use mathlib.Core.List.{append_assoc}
use sbpfs.Common.{
  ℕ, zero, suc, ◌+◌, ◌≤◌, ◌<◌, ◌≡◌, ◌≢◌, refl, sym, ap, ◌∙◌, arith, false, some, ltb, List, [], ◌∷◌,
  ◌++◌, length, take, drop, All, length-append,
}
use sbpfs.Head.Strings.{Bytes, starts_with, strstr}
use sbpfs.Head.{
  crlf, header_flag, colon, max_entry_in_head, HeadEntry, Head, entries_len, put_entries, make_head,
  decode_entries, decoded, decode_head,
}
use sbpfs.Head.Search.{
  IsClean, IsPlain, gap, gap-render, line, line-ne-nil, line-plain, plain-no_return, plain-nonzero,
  prepend, prepend-some, render, strstr-colon, strstr-crlf, strstr-gap, strstr-skip,
}

decode_entries-empty : (k : ℕ) → decode_entries (suc k) crlf ≡ some []
unfolding decode_entries strstr starts_with
decode_entries-empty k = refl

decode_entries-cons :
    (k : ℕ) (s text rest name value : Bytes) (es : List HeadEntry)
    → s ≢ []
    → strstr crlf text ≡ some (s, rest)
    → strstr colon s ≡ some (name, value)
    → decode_entries k (drop 2 rest) ≡ some es
    → decode_entries (suc k) text ≡ some (record { name = name; value = drop 2 value } ∷ es)
unfolding decode_entries
decode_entries-cons k [] text rest name value es ne e1 e2 e3 = absurd (ne refl)
decode_entries-cons k (c ∷ s) text rest name value es ne e1 e2 e3 = rw (e1, e2, e3)

decode_entries-render :
    (es : List HeadEntry) (k : ℕ)
    → All IsClean es
    → length es < k
    → decode_entries k (render es) ≡ some es
unfolding render
decode_entries-render es zero h fuel = absurd (omega arith)
decode_entries-render [] (suc k) h fuel = decode_entries-empty k
decode_entries-render (e ∷ es) (suc k) (c, h) fuel =
    decode_entries-cons k (line e) (line e ++ (crlf ++ render es)) (crlf ++ render es) e.name
      (colon ++ e.value) es (line-ne-nil e) (strstr-crlf (line e) (render es) (line-plain e c))
      (strstr-colon e c) (decode_entries-render es k h (omega arith))

put_entries-render :
    (es : List HeadEntry) (out : Bytes) → put_entries es out ++ crlf ≡ out ++ render es
unfolding put_entries render line
put_entries-render [] out = refl
put_entries-render (e ∷ es) out =
    put_entries-render es (out ++ e.name ++ colon ++ e.value ++ crlf) ∙ simp append_assoc

entries_len-render : (es : List HeadEntry) (n : ℕ) → entries_len es n + 2 ≡ n + length (render es)
unfolding entries_len render line
entries_len-render [] n = omega arith
entries_len-render (e ∷ es) n =
    entries_len-render es (n + (length e.name + length e.value + 4))
    ∙ omega (
      arith,
      length-append (e.name ++ (colon ++ e.value)) (crlf ++ render es),
      length-append e.name (colon ++ e.value),
    )

-- The message that `make_head` writes, in the order of its bytes.
unfoldable pub message : Bytes → List HeadEntry → Bytes
unfolding render
message title es = title ++ (crlf ++ render es)

pub make_head-message :
    (head : Head)
    → length head.entrys ≤ max_entry_in_head
    → make_head head
      ≡ some (length (message head.title head.entrys), message head.title head.entrys)
unfolding make_head message
make_head-message head few = rw (not_many head.entrys few) (λ i. some (size i, bytes i))
  where
    bytes :
        put_entries head.entrys (head.title ++ crlf) ++ crlf
        ≡ head.title ++ (crlf ++ render head.entrys)
    bytes =
        put_entries-render head.entrys (head.title ++ crlf)
        ∙ append_assoc head.title crlf (render head.entrys)

    size :
        entries_len head.entrys (length head.title + 2) + 2
        ≡ length (head.title ++ (crlf ++ render head.entrys))
    size = omega (
      arith,
      entries_len-render head.entrys (length head.title + 2),
      length-append head.title (crlf ++ render head.entrys),
    )

    not_many : (es : List HeadEntry) → length es ≤ 32 → ltb 32 (length es) ≡ false
    not_many es h = ground arith

pub take-length-append : (xs ys : Bytes) → take (length xs) (xs ++ ys) ≡ xs
take-length-append [] ys = refl
take-length-append (x ∷ xs) ys = ap (λ s. x ∷ s) (take-length-append xs ys)

message-head :
    (title : Bytes) (es : List HeadEntry) → (title ++ gap es) ++ header_flag ≡ message title es
unfolding message
message-head title es =
    append_assoc title (gap es) header_flag ∙ ap (λ s. title ++ s) (gap-render es)

pub strstr-message :
    (title : Bytes) (es : List HeadEntry) (body : Bytes)
    → All IsPlain title
    → All IsClean es
    → strstr header_flag (message title es ++ body) ≡ some (title ++ gap es, header_flag ++ body)
unfolding message
strstr-message title es body ht he =
    ap (strstr header_flag) (
      append_assoc title (crlf ++ render es) body
      ∙ ap (λ s. title ++ s) (append_assoc crlf (render es) body))
    ∙ (strstr-skip 13 (10 ∷ 13 ∷ 10 ∷ []) title (crlf ++ (render es ++ body))
          (plain-nonzero title ht) (plain-no_return title ht)
        ∙ (ap (prepend title) (strstr-gap es body he)
            ∙ prepend-some title (gap es) (header_flag ++ body)))

length-le-render : (es : List HeadEntry) → length es ≤ length (render es)
unfolding render
length-le-render [] = omega arith
length-le-render (e ∷ es) =
    omega (arith, length-le-render es, length-append (line e) (crlf ++ render es))

decode_head-parts :
    (text before r copy title rest : Bytes) (es : List HeadEntry)
    → strstr header_flag text ≡ some (before, r)
    → take (length before + 4) text ≡ copy
    → strstr crlf copy ≡ some (title, rest)
    → decode_entries (length copy + 1) (drop 2 rest) ≡ some es
    → decode_head text ≡ some (record { head_len = length before + 4; title = title; entrys = es })
unfolding decode_head
decode_head-parts text before r copy title rest es e1 e2 e3 e4 =
    rw (e1, e2, e3) (ap (decoded (length before + 4) title) e4)

pub header_len-message :
    (title : Bytes) (es : List HeadEntry) → length (title ++ gap es) + 4 ≡ length (message title es)
header_len-message title es =
    sym (length-append (title ++ gap es) header_flag) ∙ ap length (message-head title es)

decode_head-message :
    (title : Bytes) (es : List HeadEntry) (body : Bytes)
    → All IsPlain title
    → All IsClean es
    → decode_head (message title es ++ body)
      ≡ some (record { head_len = length (message title es); title = title; entrys = es })
decode_head-message title es body ht he =
    decode_head-parts (message title es ++ body) (title ++ gap es) (header_flag ++ body)
      (message title es) title (crlf ++ render es) es (strstr-message title es body ht he)
      (ap (λ n. take n (message title es ++ body)) (header_len-message title es)
        ∙ take-length-append (message title es) body)
      (unfold message in strstr-crlf title (render es) ht)
      (decode_entries-render es (length (message title es) + 1) he (enough title es))
    ∙ ap (λ n. some (record { head_len = n; title = title; entrys = es }))
        (header_len-message title es)
  where
    enough : (t : Bytes) (l : List HeadEntry) → length l < length (message t l) + 1
    enough t l =
        unfold message in omega (arith, length-le-render l, length-append t (crlf ++ render l))

-- A head of at most 32 entries is written in exactly the bytes that are allocated for it, and
-- `decode_head` reads the same title and entries back from the message with any body behind it, and
-- finds where the body starts. The fields hold no 0 and no carriage return, and the names no colon.
pub decode_head-make_head :
    (head : Head) (body : Bytes)
    → length head.entrys ≤ max_entry_in_head
    → All IsPlain head.title
    → All IsClean head.entrys
    → (bytes : Bytes) × (make_head head ≡ some (length bytes, bytes))
      × (decode_head (bytes ++ body) ≡ some (record head { head_len = length bytes }))
decode_head-make_head head body few ht he = (
  message head.title head.entrys,
  make_head-message head few,
  decode_head-message head.title head.entrys body ht he,
)
