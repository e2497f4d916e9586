-- ===== src/OldNode/Replies.antt =====
-- The messages that the earlier data node builds, d_node/tcpserver.c, and the protocol of libc/lib.c.
use mathlib.Core.List.{append_assoc, append-nil}
use sbpfs.Common.{
  ℕ, ◌+◌, ◌≤◌, ◌≡◌, refl, sym, ap, ◌∙◌, arith, ltb, Bool-cases, inl, inr, Option, none, some, List,
  [], ◌∷◌, ◌++◌, length, drop, All, length-append,
}
use sbpfs.Common.Mem.{Mem, text_at}
use sbpfs.Head.Strings.{Bytes}
use sbpfs.Head.{Head, HeadEntry, crlf, colon, make_head, entries_len, put_entries, decode_head}
use sbpfs.Head.Search.{IsPlain, IsClean}
use sbpfs.Head.RoundTrip.{decode_head-make_head}
use sbpfs.Cluster.Blocks.{drop-length-append}
use sbpfs.OldNode.{Built, build_headr, build_headw, build_headp, line_of, lines_len, lines}
use sbpfs.OldNode.Blocks.{databuf_size}

put_entries-lines : (es : List HeadEntry) (out : Bytes) → put_entries es out ≡ out ++ lines es
unfolding put_entries lines
put_entries-lines [] out = simp append-nil refl
put_entries-lines (x ∷ es) out =
    put_entries-lines es (out ++ x.name ++ colon ++ x.value ++ crlf) ∙ simp append_assoc

entries_len-lines : (es : List HeadEntry) (n : ℕ) → entries_len es n ≡ n + lines_len es
unfolding entries_len lines_len
entries_len-lines [] n = omega arith
entries_len-lines (x ∷ es) n =
    entries_len-lines es (n + (length x.name + length x.value + 4)) ∙ omega arith

-- What `make_head` writes, and what stands behind it.
built_of : Option (ℕ × Bytes) → Bytes → Option Built
built_of none body = none
built_of (some (len, bytes)) body =
    some (record { allocated = len + length body; written = bytes ++ body })

build_headp-make_head :
    (head : Head) (body : Bytes) → build_headp head body ≡ built_of (make_head head) body
unfolding build_headp make_head built_of
build_headp-make_head head body = elim (Bool-cases (ltb 32 (length head.entrys))) [
  | inl many ↦ rw many refl
  | inr few ↦ rw few (λ i. some (record { allocated = size i; written = bytes i }))
]
  where
    size :
        length head.title + 2 + lines_len head.entrys + 2 + length body
        ≡ entries_len head.entrys (length head.title + 2) + 2 + length body
    size = omega (arith, entries_len-lines head.entrys (length head.title + 2))

    bytes :
        head.title ++ (crlf ++ (lines head.entrys ++ (crlf ++ body)))
        ≡ (put_entries head.entrys (head.title ++ crlf) ++ crlf) ++ body
    bytes = sym (
        ap (λ t. (t ++ crlf) ++ body) (put_entries-lines head.entrys (head.title ++ crlf))
        ∙ simp append_assoc refl)

-- `build_headp` allocates for a head of at most 32 entries exactly the bytes that it writes; from these
-- the `decode_head` of libc reads the title and the entries, and finds the list of the blocks behind
-- them. The fields hold no 0 and no carriage return, and the names no colon.
pub decode_head-build_headp :
    (head : Head) (list_bytes : Bytes)
    → length head.entrys ≤ 32
    → All IsPlain head.title
    → All IsClean head.entrys
    → (b : Built) × (n : ℕ) × (build_headp head list_bytes ≡ some b)
      × (b.allocated ≡ length b.written)
      × (decode_head b.written ≡ some (record head { head_len = n }))
      × (drop n b.written ≡ list_bytes)
unfolding built_of
decode_head-build_headp head list_bytes few plain clean =
    let (bytes, made, dec) = decode_head-make_head head list_bytes few plain clean in
    (
      record { allocated = length bytes + length list_bytes; written = bytes ++ list_bytes },
      length bytes,
      build_headp-make_head head list_bytes ∙ ap (λ o. built_of o list_bytes) made,
      sym (length-append bytes list_bytes),
      dec,
      drop-length-append bytes list_bytes,
    )

-- The reply to a write is what `make_head` of libc writes for its title and its entry, in as many
-- bytes. The reply to a read is one byte longer than the buffer that is allocated for it, whatever has
-- been read.
pub build_heads-sized :
    (databuf : Mem) (title : Bytes) (x : HeadEntry)
    → (make_head (record { head_len = 0; title = title; entrys = x ∷ [] })
        ≡ some ((build_headw title x).allocated, (build_headw title x).written))
      × (length (build_headr databuf title x).written ≡ (build_headr databuf title x).allocated + 1)
unfolding make_head build_headw build_headr entries_len put_entries
build_heads-sized databuf title x = (
  λ i. some (length title + 2 + (length x.name + length x.value + 4) + 2, bytes i),
  omega (
    arith,
    length-append title (crlf ++ (line_of x ++ (crlf ++ (text ++ 0 ∷ [])))),
    length-append (line_of x) (crlf ++ (text ++ 0 ∷ [])),
    length-append text (0 ∷ []),
    length-append x.name (colon ++ (x.value ++ crlf)),
    length-append x.value crlf,
  ),
)
  where
    text : Bytes
    text = text_at databuf_size databuf 0

    bytes : put_entries (x ∷ []) (title ++ crlf) ++ crlf ≡ title ++ (crlf ++ (line_of x ++ crlf))
    bytes = simp append_assoc refl
