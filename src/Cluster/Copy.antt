-- ===== src/Cluster/Copy.antt =====
-- A block that a data node sends to another: `send_copy` against `serve`, both of
-- d_node/haha/d_node.c.

use sbpfs.Common.{ℕ, ◌^◌, ◌<◌, ◌≡◌, refl, sym, ap, ◌∙◌, arith, true, some, [], length, drop, codes}
use sbpfs.Common.Run.{pos, done}
use sbpfs.Head.Strings.{Bytes}
use sbpfs.Head.{decode_head}
use sbpfs.Head.Literal.{is_plain-IsPlain, IsClean-entry}
use sbpfs.Head.RoundTrip.{decode_head-make_head}
use sbpfs.Client.Request.{request_ok}
use sbpfs.Node.{serve, process_req}
use sbpfs.Node.Files.{
  NodeEnv, DNode, File, getpath, readblock, writeblock, bytes_from, read_at, block_file_size,
}
use sbpfs.Node.Store.{readblock-writeblock}
use sbpfs.Node.Fields.{length-bytes_from}
use sbpfs.Node.Report.{copy_head, copy_message, send_sized, send_copy}
use sbpfs.Head.Room.{decode_head-room}
use sbpfs.Cluster.Stored.{IsFaithful}
use sbpfs.Cluster.Blocks.{decode_head-not_empty, head_message-made, drop-length-append}

-- A message of a copy that is decoded is written, and nothing is answered.
serve-copy :
    (e : NodeEnv) (text num len : Bytes) (n : ℕ) (d d' : DNode)
    → decode_head text ≡ some (record (copy_head num len) { head_len = n })
    → writeblock e (e.libc.atoll num) (e.atoi (codes "0")) (e.atoi len) (drop n text) d
      ≡ done true d'
    → serve e text d ≡ done [] d'
unfolding serve process_req
serve-copy e text num len n d d' dec run =
    rw (decode_head-not_empty text _ dec, decode_head-room text _ dec (omega arith), dec, run) refl

module _ (e : NodeEnv) (ok : IsFaithful e) (zero_read : e.atoi (codes "0") ≡ 0) (blocknum : ℕ)
    (small : blocknum < 2 ^ 63) (creates : e.creates (getpath e blocknum) ≡ true) where
  decode_head-copy :
      (size : ℕ) (body : Bytes)
      → size < 2 ^ 31
      → (n : ℕ) × (decode_head (copy_message e blocknum size (some body))
          ≡ some
              (record (copy_head
                (e.libc.sprintf (codes "%lld") blocknum)
                (e.libc.sprintf (codes "%d") size)) { head_len = n }))
        × (drop n (copy_message e blocknum size (some body)) ≡ body)
  decode_head-copy size body fits =
      let num = e.libc.sprintf (codes "%lld") blocknum in
      let len = e.libc.sprintf (codes "%d") size in
      let plain = ok.plain_int size fits in
      let (bytes, made, dec) =
        decode_head-make_head (copy_head num len) body (omega arith)
          (is_plain-IsPlain request_ok refl)
          (
            IsClean-entry (codes "Method") (codes "Copy") refl refl
                (is_plain-IsPlain (codes "Copy") refl),
            (
              IsClean-entry (codes "Argc") (codes "3") refl refl
                  (is_plain-IsPlain (codes "3") refl),
              (
                IsClean-entry (codes "Arg0") num refl refl (ok.plain_long blocknum small),
                (
                  IsClean-entry (codes "Arg1") (codes "0") refl refl
                      (is_plain-IsPlain (codes "0") refl),
                  (
                    IsClean-entry (codes "Arg2") len refl refl plain,
                    (IsClean-entry (codes "Content-Length") len refl refl plain, tt),
                  ),
                ),
              ),
            ),
          ) in
      let text = head_message-made (copy_head num len) body (length bytes) bytes made in
      (
        length bytes,
        ap decode_head text ∙ dec,
        ap (drop (length bytes)) text ∙ drop-length-append bytes body,
      )

  -- A node that is sent a block stores it.
  serve-stored :
      (content : Bytes) (d : DNode)
      → length content < 2 ^ 31
      → (d' : DNode) × (serve e (copy_message e blocknum (length content) (some content)) d
          ≡ done [] d')
        × (readblock e blocknum 0 (length content) d' ≡ done (some content) d')
  serve-stored content d fits =
      let (n, dec, body) = decode_head-copy (length content) content fits in
      let (d', run, back) = readblock-writeblock e blocknum 0 content d creates in
      let run' =
        (λ i.
          writeblock e (ok.atoll_long blocknum small i) (zero_read i)
            (ok.atoi_int (length content) fits i) (body i) d)
        ∙ run in
      (
        d',
        serve-copy e (copy_message e blocknum (length content) (some content))
            (e.libc.sprintf (codes "%lld") blocknum) (e.libc.sprintf (codes "%d") (length content))
            n d d' dec run',
        back,
      )

  -- What `readblock` finds in a file.
  readblock-content :
      (size : ℕ) (d : DNode) (f : File)
      → d.files (getpath e blocknum) ≡ some f
      → readblock e blocknum 0 size d ≡ done (some (bytes_from size (read_at f 0 e.junk) 0)) d
  unfolding readblock
  readblock-content size d f there = rw (readblock, there) refl

  send_sized-message :
      (size : ℕ) (d : DNode) (content : Bytes)
      → readblock e blocknum 0 size d ≡ done (some content) d
      → send_sized e size blocknum d ≡ done (copy_message e blocknum size (some content), pos 0) d
  unfolding send_sized
  send_sized-message size d content read = rw (send_sized, ok.granted size, read) refl

  served_sized :
      (size : ℕ) (from to : DNode) (f : File)
      → size < 2 ^ 31
      → from.files (getpath e blocknum) ≡ some f
      → (message : Bytes) × (content : Bytes) × (to' : DNode) × (send_sized e size blocknum from
          ≡ done (message, pos 0) from)
        × (readblock e blocknum 0 size from ≡ done (some content) from)
        × (serve e message to ≡ done [] to')
        × (readblock e blocknum 0 size to' ≡ done (some content) to')
  served_sized size from to f fits there =
      let content = bytes_from size (read_at f 0 e.junk) 0 in
      let whole : length content ≡ size = length-bytes_from size (read_at f 0 e.junk) 0 in
      let read = readblock-content size from f there in
      let (to', run, back) = serve-stored content to (omega (arith, whole)) in
      (
        copy_message e blocknum size (some content),
        content,
        to',
        send_sized-message size from content read,
        read,
        ap (λ n. serve e (copy_message e blocknum n (some content)) to) (sym whole) ∙ run,
        ap (λ n. readblock e blocknum 0 n to') (sym whole) ∙ back,
      )

  -- The message that `send_copy` sends for a block that is there, served by another data node, leaves
  -- that node with the block: `readblock` of all its bytes finds there what it finds at the sender,
  -- whose state stays. The C library is faithful and `atoi` reads the text 0, the number of the block
  -- is printable, and the file of the block can be created.
  pub serve-send_copy :
      (from to : DNode) (f : File)
      → from.files (getpath e blocknum) ≡ some f
      → (message : Bytes) × (content : Bytes) × (to' : DNode) × (send_copy e blocknum from
          ≡ done (message, pos 0) from)
        × (readblock e blocknum 0 block_file_size from ≡ done (some content) from)
        × (serve e message to ≡ done [] to')
        × (readblock e blocknum 0 block_file_size to' ≡ done (some content) to')
  unfolding send_copy
  serve-send_copy from to f there = served_sized block_file_size from to f (omega arith) there
