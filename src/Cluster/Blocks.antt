-- ===== src/Cluster/Blocks.antt =====
-- What the client writes to a block of a data node, it reads back: `write_block` and `read_block` of
-- libc/read_write.c against `serve` of d_node/haha/d_node.c.
use sbpfs.Common.{
  ℕ, ◌≤◌, ◌≡◌, refl, ap, ◌∙◌, arith, true, false, ◌==◌, Option, none, some, [], ◌∷◌, ◌++◌, length,
  drop, codes, length-append, All, Bool-cases, inl, inr,
}
use sbpfs.Common.Run.{done}
use sbpfs.Head.Strings.{Bytes, strstr}
use sbpfs.Client.Wire.{IsAnswer}
use sbpfs.Trace.{err_type, err_detail}
use sbpfs.Cluster.{talk_of}
use sbpfs.Head.Literal.{is_plain, is_plain-IsPlain, IsClean-entry}
use sbpfs.Head.{Head, make_head, decode_head}
use sbpfs.Head.Search.{IsPlain, IsClean}
use sbpfs.Head.Room.{decode_head-room}
use sbpfs.Head.RoundTrip.{decode_head-make_head}
use sbpfs.Client.State.{reply}
use sbpfs.Client.Request.{ent, request_ok, request_err, is_empty}
use sbpfs.Node.{serve, process_req, ok_head, err_head, send_err, head_message}
use sbpfs.Node.Files.{NodeEnv, DNode, readblock, writeblock}

-- A text that has been decoded is not empty.
pub decode_head-not_empty :
    (text : Bytes) (head : Head) → decode_head text ≡ some head → is_empty text ≡ false
unfolding decode_head strstr
decode_head-not_empty [] head h = cc
decode_head-not_empty (b ∷ text) head h = elim (Bool-cases (b == 0)) [
  | inl end ↦ cc (rw end at h)
  | inr more ↦ more
]

-- A request to a data node that has the entries of `block_request`, between others.
abbrev block_head : Bytes → Bytes → Bytes → Bytes → Bytes → Bytes → Bytes → Bytes → Head
block_head usr pass auth method num offset len content_len = record {
  head_len = 0;
  title = codes "SBPFS/1.0";
  entrys =
      ent (codes "User") usr
      ∷ ent (codes "Password") pass
      ∷ ent (codes "Auth-Code") auth
      ∷ ent (codes "Method") method
      ∷ ent (codes "Argc") (codes "3")
      ∷ ent (codes "Arg0") num
      ∷ ent (codes "Arg1") offset
      ∷ ent (codes "Arg2") len
      ∷ ent (codes "Content-Length") content_len
      ∷ [];
}

-- A request to write that is decoded is written and answered.
pub serve-write :
    (e : NodeEnv) (text usr pass auth num offset len content_len : Bytes) (n : ℕ) (d d' : DNode)
    → decode_head text
      ≡ some (record (block_head usr pass auth (codes "WRITE") num offset len content_len) {
        head_len = n;
      })
    → writeblock e (e.libc.atoll num) (e.atoi offset) (e.atoi len) (drop n text) d ≡ done true d'
    → serve e text d ≡ done (head_message (ok_head (codes "0")) []) d'
unfolding serve process_req
serve-write e text usr pass auth num offset len content_len n d d' dec run =
    rw (decode_head-not_empty text _ dec, decode_head-room text _ dec (omega arith), dec, run) refl

-- A request to read that is decoded is answered with the block that is read.
pub serve-read :
    (e : NodeEnv) (text usr pass auth num offset len content_len block : Bytes) (n : ℕ) (d : DNode)
    → decode_head text
      ≡ some (record (block_head usr pass auth (codes "READ") num offset len content_len) {
        head_len = n;
      })
    → e.libc.grants (e.atoi len) ≡ true
    → readblock e (e.libc.atoll num) (e.atoi offset) (e.atoi len) d ≡ done (some block) d
    → serve e text d
      ≡ done (head_message (ok_head (e.libc.sprintf (codes "%d") (e.atoi len))) block) d
unfolding serve process_req
serve-read e text usr pass auth num offset len content_len block n d dec granted run =
    rw
      (
        decode_head-not_empty text _ dec,
        decode_head-room text _ dec (omega arith),
        dec,
        granted,
        run,
      )
      refl

-- A request to read a block that is not there is answered with an error.
pub serve-missing :
    (e : NodeEnv) (text usr pass auth num offset len content_len : Bytes) (n : ℕ) (d : DNode)
    → decode_head text
      ≡ some (record (block_head usr pass auth (codes "READ") num offset len content_len) {
        head_len = n;
      })
    → e.libc.grants (e.atoi len) ≡ true
    → readblock e (e.libc.atoll num) (e.atoi offset) (e.atoi len) d ≡ done none d
    → serve e text d
      ≡ done (head_message (err_head (codes "read_block") (codes "cannot read block")) []) d
unfolding serve process_req send_err
serve-missing e text usr pass auth num offset len content_len n d dec granted run =
    rw
      (
        decode_head-not_empty text _ dec,
        decode_head-room text _ dec (omega arith),
        dec,
        granted,
        run,
      )
      refl

-- What the message of a head and a body is to the client.
pub record IsReply (head : Head) (body text : Bytes) : Type 0 where
  pub n : ℕ
  pub answer : IsAnswer text (record head { head_len = n })
  pub body_at : drop n text ≡ body
  pub inside : n ≤ length text
  pub talked : talk_of text ≡ reply text

talk_of-reply : (text : Bytes) → is_empty text ≡ false → talk_of text ≡ reply text
talk_of-reply [] h = cc
talk_of-reply (b ∷ text) h = refl

pub drop-length-append : (xs ys : Bytes) → drop (length xs) (xs ++ ys) ≡ ys
drop-length-append [] ys = refl
drop-length-append (x ∷ xs) ys = drop-length-append xs ys

pub head_message-made :
    (head : Head) (body : Bytes) (len : ℕ) (bytes : Bytes)
    → make_head head ≡ some (len, bytes)
    → head_message head body ≡ bytes ++ body
head_message-made head body len bytes made =
    ap (λ (o : Option (ℕ × Bytes)). elim o [ none ↦ [] | some (l, m) ↦ m ++ body ]) made

head_message-IsReply :
    (head : Head) (body : Bytes)
    → length head.entrys ≤ 32
    → All IsPlain head.title
    → All IsClean head.entrys
    → IsReply head body (head_message head body)
head_message-IsReply head body few title clean =
    let (bytes, made, dec) = decode_head-make_head head body few title clean in
    let text = head_message-made head body (length bytes) bytes made in
    let dec' = ap decode_head text ∙ dec in
    let some_text = decode_head-not_empty (head_message head body) _ dec' in
    record {
      n = length bytes;
      inside = omega (arith, ap length text, length-append bytes body);
      answer = record {
        some_text = some_text;
        has_head = dec';
        room = decode_head-room (head_message head body) _ dec' few;
      };
      body_at = ap (drop (length bytes)) text ∙ drop-length-append bytes body;
      talked = talk_of-reply (head_message head body) some_text;
    }

pub ok_head-IsReply :
    (value body : Bytes)
    → All IsPlain value
    → IsReply (ok_head value) body (head_message (ok_head value) body)
ok_head-IsReply value body plain =
    head_message-IsReply (ok_head value) body (omega arith) (is_plain-IsPlain request_ok refl)
      (IsClean-entry (codes "Content-Length") value refl refl plain, tt)

pub err_head-IsReply :
    (type detail : Bytes)
    → is_plain type ≡ true
    → is_plain detail ≡ true
    → IsReply (err_head type detail) [] (head_message (err_head type detail) [])
err_head-IsReply type detail t d =
    head_message-IsReply (err_head type detail) [] (omega arith) (is_plain-IsPlain request_err refl)
      (
        IsClean-entry err_type type refl refl (is_plain-IsPlain type t),
        (
          IsClean-entry err_detail detail refl refl (is_plain-IsPlain detail d),
          (
            IsClean-entry (codes "Content-Length") (codes "0") refl refl
                (is_plain-IsPlain (codes "0") refl),
            tt,
          ),
        ),
      )

-- The message of a request to a data node is decoded, with any body behind it.
pub decode_head-block_head :
    (usr pass auth method num offset len content_len body : Bytes)
    → All IsPlain usr
    → All IsPlain pass
    → All IsPlain auth
    → is_plain method ≡ true
    → All IsPlain num
    → All IsPlain offset
    → All IsPlain len
    → All IsPlain content_len
    → (bytes : Bytes) × (make_head (block_head usr pass auth method num offset len content_len)
        ≡ some (length bytes, bytes))
      × (decode_head (bytes ++ body)
          ≡ some (record (block_head usr pass auth method num offset len content_len) {
            head_len = length bytes;
          }))
decode_head-block_head usr pass auth method num offset len content_len body u p a m n o l c =
    decode_head-make_head (block_head usr pass auth method num offset len content_len) body
      (omega arith) (is_plain-IsPlain (codes "SBPFS/1.0") refl)
      (
        IsClean-entry (codes "User") usr refl refl u,
        (
          IsClean-entry (codes "Password") pass refl refl p,
          (
            IsClean-entry (codes "Auth-Code") auth refl refl a,
            (
              IsClean-entry (codes "Method") method refl refl (is_plain-IsPlain method m),
              (
                IsClean-entry (codes "Argc") (codes "3") refl refl
                    (is_plain-IsPlain (codes "3") refl),
                (
                  IsClean-entry (codes "Arg0") num refl refl n,
                  (
                    IsClean-entry (codes "Arg1") offset refl refl o,
                    (
                      IsClean-entry (codes "Arg2") len refl refl l,
                      (IsClean-entry (codes "Content-Length") content_len refl refl c, tt),
                    ),
                  ),
                ),
              ),
            ),
          ),
        ),
      )
