-- ===== src/Node.antt =====
-- The data node, d_node/haha: what it does with a message (`serve` and `process_req` of d_node.c), and
-- the blocks that it keeps in files (blockman.c). Messages that it sends are taken to be sent whole.
pub mod Files
pub mod Store
pub mod Names
pub mod Listing
pub mod Fields
pub mod Listed
pub mod Delisted
pub mod Restart
pub mod Report
pub mod Threads
pub mod Tests
use sbpfs.Common.{
  ℕ, ◌+◌, ◌%◌, ◌^◌, ◌==◌, ltb, Bool, true, false, ◌&&◌, not, if◌then◌else◌, Option, none, some,
  List, [], ◌∷◌, ◌++◌, length, drop, codes, str_eq,
}
use sbpfs.Common.Mem.{u32_mod}
use sbpfs.Common.Run.{
  ℤ, pos, minus, Cmd, done, stop, endless, pure, return_code, return_if, or_return, ◌>>=◌, ◌>>◌,
}
use sbpfs.Head.Strings.{Bytes}
use sbpfs.Head.{Head, HeadEntry, make_head, decode_head, overruns, get_head_entry_value}
use sbpfs.Trace.{err_type, err_detail}
use sbpfs.Client.State.{Libc, crash, in_bounds}
use sbpfs.Client.Request.{ent, request_ok, request_err, is_empty}
use sbpfs.Node.Files.{NodeEnv, DNode, readblock, writeblock}

-- a `struct list_entry`: a request
pub record ListEntry : Type 0 where
  pub req : ℕ
  pub block_num : ℕ
  pub offset : ℕ
  pub length : ℕ
  pub content : Bytes

abbrev pub ok_head : Bytes → Head
ok_head content_len = record {
  head_len = 0;
  title = request_ok;
  entrys = ent (codes "Content-Length") content_len ∷ [];
}

abbrev pub err_head : Bytes → Bytes → Head
err_head type detail = record {
  head_len = 0;
  title = request_err;
  entrys =
      ent err_type type ∷ ent err_detail detail ∷ ent (codes "Content-Length") (codes "0") ∷ [];
}

-- a head as a message, and no message where it cannot be made
abbrev pub head_message : Head → Bytes → Bytes
head_message head body = elim (make_head head) [ none ↦ [] | some (len, bytes) ↦ bytes ++ body ]

-- `send_err`
unfoldable pub send_err : Bytes → Bytes → Bytes
send_err type detail = head_message (err_head type detail) []

-- The block that `readblock` has read, as a reply, or the error reply.
abbrev pub read_reply : NodeEnv → ℕ → Option Bytes → Bytes
read_reply e length none = send_err (codes "read_block") (codes "cannot read block")
read_reply e length (some block) = head_message (ok_head (e.libc.sprintf (codes "%d") length)) block

-- `process_req`: what is sent, where `req` is 1, 2 or 3. After a write that fails the head of the
-- reply is not set, and is used.
unfoldable pub process_req : NodeEnv → ListEntry → Cmd DNode Bytes
unfolding readblock writeblock
process_req e r =
    if r.req == 1
    then (do
      return_if (not (e.libc.grants r.length)) (minus 1)
      block ← readblock e r.block_num r.offset r.length
      pure (read_reply e r.length block))
    else (do
      ok ← writeblock e r.block_num r.offset r.length r.content
      if r.req == 2
          then (if ok then pure (head_message (ok_head (codes "0")) []) else crash)
          else pure [])

-- the number of a method, or none
abbrev pub req_of : Bytes → Option ℕ
req_of method =
    if str_eq method (codes "READ")
    then some 1
    else if str_eq method (codes "WRITE")
    then some 2
    else if str_eq method (codes "Copy")
    then some 3
    else none

-- `serve`: the reply to a message, which is empty where nothing is sent. The error exits close the
-- socket.
unfoldable pub serve : NodeEnv → Bytes → Cmd DNode Bytes
unfolding decode_head get_head_entry_value process_req
serve e rec_buf = do
  return_if (is_empty rec_buf) (minus 1)
  in_bounds (not (overruns rec_buf))
  head ← or_return (minus 1) (decode_head rec_buf)
  method ← or_return (minus 1) (get_head_entry_value head (codes "Method"))
  req ← or_return (minus 1) (req_of method)
  block_num_s ← or_return (minus 1) (get_head_entry_value head (codes "Arg0"))
  offset_s ← or_return (minus 1) (get_head_entry_value head (codes "Arg1"))
  length_s ← or_return (minus 1) (get_head_entry_value head (codes "Arg2"))
  content_len_s ← or_return (minus 1) (get_head_entry_value head (codes "Content-Length"))
  process_req e (record {
    req = req;
    block_num = e.libc.atoll block_num_s;
    offset = e.atoi offset_s;
    length = e.atoi length_s;
    content = if req == 1 then [] else drop head.head_len rec_buf;
  })
