-- ===== src/Node/Report.antt =====
-- What a data node sends on its own: the list of its blocks to the control node, a block that it has
-- stored, and a block to another data node (`send_list`, `send_success`, `get_reply` and `send_copy` of
-- d_node/haha/d_node.c).
use sbpfs.Common.{
  ℕ, ◌*◌, ◌/◌, ◌%◌, if◌then◌else◌, Option, none, some, List, [], ◌∷◌, ◌++◌, not, length, codes,
  str_eq,
}
use sbpfs.Common.Mem.{u32_bytes, u32_mod}
use sbpfs.Common.Run.{ℤ, pos, minus, Cmd, pure, return_if, ◌>>=◌, ◌>>◌, get, put_state}
use sbpfs.Head.Strings.{Bytes}
use sbpfs.Head.{Head, decode_head}
use sbpfs.Client.Request.{ent, request_ok, protocol, is_empty}
use sbpfs.Node.Files.{NodeEnv, DNode, readblock, block_file_size}
use sbpfs.Node.Listing.{getlist}
use sbpfs.Node.{head_message, send_err}

-- The bytes of an array of `u64_t`.
unfoldable pub u64s : List ℕ → Bytes
u64s [] = []
u64s (v ∷ vs) = u32_bytes (v % u32_mod) ++ (u32_bytes (v / u32_mod) ++ u64s vs)

-- The head that names a data node and how many blocks it reports.
abbrev pub report_head : Bytes → Bytes → Bytes → Head
report_head dname content_len block_num = record {
  head_len = 0;
  title = protocol;
  entrys =
      ent (codes "Content-Length") content_len
      ∷ ent (codes "User") (codes "DNode_" ++ dname)
      ∷ ent (codes "BlockNum") block_num
      ∷ [];
}

-- The code for what is received, `none` where nothing is.
unfoldable pub get_reply : Option Bytes → ℤ
unfolding decode_head
get_reply none = minus 1
get_reply (some rec_buf) = if is_empty rec_buf then minus 1 else elim (decode_head rec_buf) [
  | none ↦ minus 1
  | some head ↦ if str_eq head.title request_ok then pos 0 else minus 1
]

-- The message, and the code for the reply of the control node.
unfoldable pub send_list : NodeEnv → Bytes → (Bytes → Option Bytes) → Cmd DNode (Bytes × ℤ)
unfolding getlist u64s get_reply
send_list e dname control_node = do
  s ← get
  put_state (getlist e s)
  listed ← get
  let blnum = length listed.blocklist
  let print = e.libc.sprintf (codes "%lld")
  let message =
      head_message (report_head dname (print (blnum * 8)) (print blnum)) (u64s listed.blolist)
  pure (message, get_reply (control_node message))

unfoldable pub send_success : Bytes → ℕ → (Bytes → Option Bytes) → Bytes × ℤ
unfolding u64s get_reply
send_success dname blocknum control_node =
    let message = head_message (report_head dname (codes "8") (codes "1")) (u64s (blocknum ∷ [])) in
    (message, get_reply (control_node message))

-- The head of a block that is sent to another data node.
abbrev pub copy_head : Bytes → Bytes → Head
copy_head blocknum len = record {
  head_len = 0;
  title = request_ok;
  entrys =
      ent (codes "Method") (codes "Copy")
      ∷ ent (codes "Argc") (codes "3")
      ∷ ent (codes "Arg0") blocknum
      ∷ ent (codes "Arg1") (codes "0")
      ∷ ent (codes "Arg2") len
      ∷ ent (codes "Content-Length") len
      ∷ [];
}

-- The block as it is read, as a message. A block that cannot be read is an error message.
abbrev pub copy_message : NodeEnv → ℕ → ℕ → Option Bytes → Bytes
copy_message e blocknum size none = send_err (codes "copy_block") (codes "cannot read block")
copy_message e blocknum size (some block) =
    head_message
      (copy_head (e.libc.sprintf (codes "%lld") blocknum) (e.libc.sprintf (codes "%d") size)) block

-- `send_copy` of a block of `size` bytes: the message, with the code 0.
unfoldable pub send_sized : NodeEnv → ℕ → ℕ → Cmd DNode (Bytes × ℤ)
unfolding readblock send_err
send_sized e size blocknum = do
  return_if (not (e.libc.grants size)) (minus 1)
  block ← readblock e blocknum 0 size
  pure (copy_message e blocknum size block, pos 0)

unfoldable pub send_copy : NodeEnv → ℕ → Cmd DNode (Bytes × ℤ)
unfolding send_sized
send_copy e blocknum = send_sized e block_file_size blocknum
