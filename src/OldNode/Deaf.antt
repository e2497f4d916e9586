-- ===== src/OldNode/Deaf.antt =====
-- The earlier data node, d_node/tcpserver.c, and a request in the protocol of libc/lib.c.
use mathlib.Core.Path.{subst}
use sbpfs.Common.{
  ℕ, ◌+◌, ◌-◌, ◌%◌, ◌^◌, ◌≤◌, ◌<◌, ◌≡◌, ◌≢◌, refl, sym, ap, ◌∙◌, arith, false, ◌==◌, ==→eq,
  Bool-cases, inl, inr, Option, none, some, ◌++◌, length, take, All, length-append,
}
use sbpfs.Common.Run.{endless}
use sbpfs.Head.Strings.{Bytes, strstr, starts_with}
use sbpfs.Head.{Head, crlf, header_flag, make_head}
use sbpfs.Head.Search.{IsPlain, IsClean, gap, render, strstr-crlf}
use sbpfs.Head.RoundTrip.{
  message, make_head-message, take-length-append, strstr-message, header_len-message,
}
use sbpfs.Node.Files.{NodeEnv}
use sbpfs.OldNode.Blocks.{Server}
use sbpfs.OldNode.{copy_rest, decode_lines, decode_head}

-- the message of a head that is made
abbrev message_or : Bytes → Option (ℕ × Bytes) → Bytes
message_or other none = other
message_or other (some (len, bytes)) = bytes

module _ (e : NodeEnv) (refuses : (n : ℕ) → 2 ^ 63 ≤ n → e.libc.grants n ≡ false) where
  -- A head of nine bytes or more is longer than a pointer, so that the length of the rest wraps around.
  copy_rest-crash : (n : ℕ) → 9 ≤ n → n < 8192 + 4 → (s : Server) → copy_rest e n s ≡ endless
  unfolding copy_rest
  copy_rest-crash n long short s = elim (Bool-cases (n == 9)) [
    | inl nine ↦
        let size : (9 + 2 ^ 64 - n) % 2 ^ 64 ≡ 0 = omega (arith, ==→eq n 9 nine) in
        ground (arith, size)
    | inr more ↦
        let ne : n ≢ 9 = λ same. ground (arith, same, more) in
        let size : 2 ^ 63 ≤ (9 + 2 ^ 64 - n) % 2 ^ 64 = omega (arith, ne, long, short) in
        rw (copy_rest, refuses ((9 + 2 ^ 64 - n) % 2 ^ 64) size) refl
  ]

  decode_head-crash :
      (text before r copy title prev : Bytes) (s : Server)
      → strstr header_flag text ≡ some (before, r)
      → take (length before + 4) text ≡ copy
      → strstr crlf copy ≡ some (title, crlf ++ prev)
      → 5 ≤ length before
      → length before < 8192
      → decode_head e text s ≡ endless
  unfolding decode_head decode_lines strstr starts_with
  decode_head-crash text before r copy title prev s e1 e2 e3 long short =
      elim (Bool-cases (e.libc.grants (length before + 4 + 1))) [
        | inl granted ↦
            let dies = copy_rest-crash (length before + 4) (omega arith) (omega arith) in
            rw (decode_head, e1, granted, e2, e3, dies) refl
        | inr refused ↦ rw (decode_head, e1, refused) refl
      ]

  -- `decode_head` of the earlier data node does not return on a message that `make_head` of libc has
  -- written for a title of five bytes or more, with any body, because the length of the rest of a
  -- head that it allocates wraps around. `malloc` refuses sizes of 2^63 and more; the message has fewer
  -- than 8192 bytes, the fields of its head hold no 0 and no carriage return, and the names no colon.
  pub decode_head-deaf :
      (head : Head) (len : ℕ) (bytes body : Bytes) (s : Server)
      → All IsPlain head.title
      → All IsClean head.entrys
      → length head.entrys ≤ 32
      → 5 ≤ length head.title
      → make_head head ≡ some (len, bytes)
      → length (bytes ++ body) < 8192
      → decode_head e (bytes ++ body) s ≡ endless
  decode_head-deaf head len bytes body s plain clean few long made short =
      let title = head.title in
      let es = head.entrys in
      let same : bytes ≡ message title es =
        ap (message_or bytes) (sym made ∙ make_head-message head few) in
      let text = message title es ++ body in
      let whole : bytes ++ body ≡ text = ap (λ b. b ++ body) same in
      let size : length (title ++ gap es) + 4 ≡ length (message title es) =
        header_len-message title es in
      let title_size = length-append title (gap es) in
      let text_size : length text ≡ length (message title es) + length body =
        length-append (message title es) body in
      let fits : length text < 8192 = subst (λ t. length t < 8192) whole short in
      ap (λ t. decode_head e t s) whole
      ∙ decode_head-crash text (title ++ gap es) (header_flag ++ body) (message title es) title
          (render es) s (strstr-message title es body plain clean)
          (ap (λ n. take n text) size ∙ take-length-append (message title es) body)
          (unfold message in strstr-crlf title (render es) plain) (omega (arith, title_size, long))
          (omega (arith, size, text_size, fits))
