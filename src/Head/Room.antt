-- ===== src/Head/Room.antt =====
-- A head that `decode_head` of libc/lib.c reads with no more entries than `entrys` holds: no entry has
-- been set behind the end of `entrys`.
use sbpfs.Common.{
  ℕ, zero, suc, ◌+◌, ◌≤◌, ◌≡◌, refl, ap, ◌∙◌, arith, false, Option, none, some, List, [], ◌∷◌,
  length, take, drop,
}
use sbpfs.Head.Strings.{Bytes, strstr}
use sbpfs.Head.{
  Head, HeadEntry, crlf, colon, header_flag, decode_entries, decode_head, sets_more, overruns,
}

sets_more-end :
    (n : ℕ) (text rest : Bytes) → strstr crlf text ≡ some ([], rest) → sets_more n text ≡ false
unfolding sets_more
sets_more-end zero text rest e = rw (sets_more, e) refl
sets_more-end (suc n) text rest e = rw (sets_more, e) refl

sets_more-next :
    (n c : ℕ) (text line rest : Bytes) (found : Bytes × Bytes)
    → strstr crlf text ≡ some (c ∷ line, rest)
    → strstr colon (c ∷ line) ≡ some found
    → sets_more (suc n) text ≡ sets_more n (drop 2 rest)
unfolding sets_more
sets_more-next n c text line rest found e e' = rw (sets_more, e, e') refl

entries_or : List HeadEntry → Option (List HeadEntry) → List HeadEntry
entries_or es none = es
entries_or es (some es') = es'

sets_more-after :
    (m c : ℕ) (text line rest : Bytes) (found : Bytes × Bytes) (es : List HeadEntry)
    → strstr crlf text ≡ some (c ∷ line, rest)
    → strstr colon (c ∷ line) ≡ some found
    → ((n : ℕ) → length es ≤ n → sets_more n (drop 2 rest) ≡ false)
    → suc (length es) ≤ m
    → sets_more m text ≡ false
sets_more-after zero c text line rest found es e e' later few = absurd (omega (arith, few))
sets_more-after (suc m) c text line rest found es e e' later few =
    sets_more-next m c text line rest found e e' ∙ later m (omega (arith, few))

-- A loop that ends with `n` entries or fewer.
sets_more-few :
    (k n : ℕ) (text : Bytes) (es : List HeadEntry)
    → decode_entries k text ≡ some es
    → length es ≤ n
    → sets_more n text ≡ false
unfolding decode_entries entries_or
sets_more-few zero n text es h few = cc
sets_more-few (suc k) n text es h few =
    by_line (λ m t es' e le. sets_more-few k m t es' e le) (strstr crlf text) refl
  where
    by_line :
        ((m : ℕ) (t : Bytes) (es' : List HeadEntry)
          → decode_entries k t ≡ some es'
          → length es' ≤ m
          → sets_more m t ≡ false)
        → (o : Option (Bytes × Bytes)) → strstr crlf text ≡ o
        → sets_more n text ≡ false
    by_line ih none e = cc (rw e at h)
    by_line ih (some ([], rest)) e = sets_more-end n text rest e
    by_line ih (some (c ∷ line, rest)) e = by_colon (strstr colon (c ∷ line)) refl
      where
        by_colon :
            (o : Option (Bytes × Bytes)) → strstr colon (c ∷ line) ≡ o → sets_more n text ≡ false
        by_colon none e' = cc (rw (e, e') at h)
        by_colon (some (name, value)) e' = by_rest (decode_entries k (drop 2 rest)) refl
          where
            by_rest :
                (o : Option (List HeadEntry))
                → decode_entries k (drop 2 rest) ≡ o
                → sets_more n text ≡ false
            by_rest none e'' = cc (rw (e, e', e'') at h)
            by_rest (some es') e'' =
                let all = ap (λ o. length (entries_or es o)) (rw (e, e', e'') at h) in
                sets_more-after n c text line rest (name, value) es' e e'
                  (λ m le. ih m (drop 2 rest) es' e'' le) (omega (arith, all, few))

-- A head of 32 entries or fewer.
pub decode_head-room :
    (text : Bytes) (head : Head)
    → decode_head text ≡ some head
    → length head.entrys ≤ 32
    → overruns text ≡ false
unfolding decode_head overruns
decode_head-room text head h few = by_flag (strstr header_flag text) refl
  where
    entrys_or : Option Head → List HeadEntry
    entrys_or none = []
    entrys_or (some head') = head'.entrys

    by_flag : (o : Option (Bytes × Bytes)) → strstr header_flag text ≡ o → overruns text ≡ false
    by_flag none e = rw (overruns, e) refl
    by_flag (some (before, found)) e = by_title (strstr crlf (take (length before + 4) text)) refl
      where
        by_title :
            (o : Option (Bytes × Bytes))
            → strstr crlf (take (length before + 4) text) ≡ o
            → overruns text ≡ false
        by_title none e' = rw (overruns, e, e') refl
        by_title (some (title, rest)) e' =
            by_entries (decode_entries (length (take (length before + 4) text) + 1) (drop 2 rest))
              refl
          where
            by_entries :
                (o : Option (List HeadEntry))
                → decode_entries (length (take (length before + 4) text) + 1) (drop 2 rest) ≡ o
                → overruns text ≡ false
            by_entries none e'' = cc (rw (e, e', e'') at h)
            by_entries (some es) e'' =
                let same = ap (λ o. length (entrys_or o)) (rw (e, e', e'') at h) in
                rw (overruns, e, e')
                  (sets_more-few (length (take (length before + 4) text) + 1) 32 (drop 2 rest) es
                    e'' (omega (arith, same, few)))
