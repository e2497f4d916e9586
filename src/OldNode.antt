-- ===== src/OldNode.antt =====
-- The earlier data node, d_node/tcpserver.c: how it takes a request, makes its replies and reports to a
-- control node. A pointer that is not set or no longer holds, and an access that is out of bounds, end
-- the program, like exit.
pub mod Blocks
pub mod Replies
pub mod Deaf
mod Tests
use sbpfs.Common.{
  ℕ, zero, suc, ◌+◌, ◌-◌, ◌*◌, ◌/◌, ◌%◌, ◌^◌, ltb, ◌==◌, Bool, true, false, if◌then◌else◌, not,
  Option, none, some, List, [], ◌∷◌, ◌++◌, length, get_elem?, take, drop, codes, str_eq,
}
use sbpfs.Common.Mem.{Mem, text_at, u64_mod}
use sbpfs.Common.Run.{
  ℤ, pos, negsuc, minus, Cmd, endless, pure, return_if, ◌>>=◌, ◌>>◌, get, put_state,
}
use sbpfs.Head.Strings.{Bytes, strstr}
use sbpfs.Head.{Head, HeadEntry, crlf, header_flag, colon, content_len}
use sbpfs.Client.State.{crash}
use sbpfs.Client.Request.{ent}
use sbpfs.Node.Files.{NodeEnv, bytes_from}
use sbpfs.OldNode.Blocks.{Server, databuf_size, getlist, readblock, writeblock}

-- What `recv` gives: at first, `none` for an error, and then where so many bytes are asked for.
pub record Peer : Type 0 where
  pub first : Option Bytes
  pub rest : ℕ → Bytes

abbrev pub buf_size : ℕ
buf_size = 8192

-- a text in a buffer of a function that has returned
abbrev pub dead : NodeEnv → Bytes
dead e = text_at 32 e.junk 0

-- `content_length + header_length - BUF_SIZE`, or -1, as patterns below 2^64. What stands behind the
-- name of the entry is read as a number, with the colon.
unfoldable pub get_missing_len : (Bytes → ℕ) → Bytes → ℕ
unfolding strstr
get_missing_len atoll buf = elim (strstr header_flag buf) [
  | none ↦ u64_mod - 1
  | some (before, _) ↦ elim (strstr content_len buf) [
    | none ↦ u64_mod - 1
    | some (_, start) ↦ elim (strstr crlf start) [
      | none ↦ u64_mod - 1
      | some (line, _) ↦ (atoll (drop 14 line) + (length before + 4) + u64_mod - buf_size) % u64_mod
    ]
  ]
]

abbrev pub set_rec_buf : Bytes → Cmd Server (Unit {0})
set_rec_buf text s = put_state (record s { rec_buf = text }) s

-- An error of the first `recv` is a length of 2^64 - 1.
unfoldable pub recinfo : NodeEnv → Peer → Cmd Server (Unit {0})
unfolding get_missing_len
recinfo e peer = elim peer.first [
  | none ↦ crash
  | some text ↦
      if ltb (length text) buf_size
      then (if e.libc.grants (length text + 1) then set_rec_buf text else crash)
      else (let missing = get_missing_len e.libc.atoll text in
          if e.libc.grants ((missing + length text + 1) % u64_mod)
          then (if length (peer.rest missing) == missing
              then set_rec_buf (text ++ peer.rest missing)
              else crash)
          else crash)
]

-- The end of `decode_head`: a buffer of `sizeof(data) - header_len + 1` bytes, where `sizeof` is 8,
-- and a 0 at its end.
unfoldable pub copy_rest : NodeEnv → ℕ → Cmd Server (Unit {0})
copy_rest e header_len =
    let size = (9 + u64_mod - header_len) % u64_mod in
    let end = (8 + u64_mod - header_len) % u64_mod in
    if e.libc.grants size then (if ltb end size then pure tt else crash) else crash

-- The loop over the lines, from the end of the title on: it is left where a line is empty, and else it
-- uses `i`, which is not set.
unfoldable pub decode_lines : Bytes → Cmd Server Bool
unfolding strstr
decode_lines prev = elim (strstr crlf prev) [
  | none ↦ pure false
  | some (line, _) ↦ elim line [ [] ↦ pure true | c ∷ cs ↦ crash ]
]

-- The head is the one of `sbphead`, whose entries stay; the title goes on to the end of the head.
unfoldable pub decode_head : NodeEnv → Bytes → Cmd Server ℤ
unfolding strstr decode_lines copy_rest
decode_head e text = elim (strstr header_flag text) [
  | none ↦ crash
  | some (before, _) ↦ (do
    let header_len = length before + 4
    let copy = take header_len text
    if e.libc.grants (header_len + 1) then pure (tt {0}) else crash
    s ← get
    put_state (record s { sbphead = record s.sbphead { head_len = header_len; title = copy } })
    elim (strstr crlf copy) [
      | none ↦ pure (minus 1)
      | some (_, prev) ↦ (do
        ends ← decode_lines prev
        if ends then copy_rest e header_len else pure tt
        pure (if ends then pos 0 else minus 1))
    ])
]

-- The loop looks at the first entry again and again.
unfoldable pub get_head_entry_value : Bytes → Cmd Server (Option Bytes)
get_head_entry_value entry s = elim s.sbphead.entrys [
  | [] ↦ pure none s
  | x ∷ xs ↦ if str_eq x.name entry then pure (some x.value) s else endless
]

-- `atoll` of a pointer
abbrev pub number_of : NodeEnv → Option Bytes → Cmd Server ℕ
number_of e none = crash
number_of e (some text) = pure (e.libc.atoll text)

abbrev pub title_of : ℤ → Bytes
title_of (pos n) = codes "SBPFS OK"
title_of (negsuc n) = codes "SBPFS ERR"

-- `read_head` and `write_head`: the value of the entry is in a buffer that is gone.
abbrev pub status_head : NodeEnv → ℤ → Head
status_head e status = record {
  head_len = 0;
  title = title_of status;
  entrys = ent content_len (dead e) ∷ [];
}

-- A message, and how many bytes are allocated for it.
pub record Built : Type 0 where
  pub allocated : ℕ
  pub written : Bytes

abbrev pub line_of : HeadEntry → Bytes
line_of x = x.name ++ (colon ++ (x.value ++ crlf))

-- The title, the first entry and the text of `databuf`, with the 0 at its end.
unfoldable pub build_headr : Mem → Bytes → HeadEntry → Built
unfolding text_at
build_headr databuf title x =
    let text = text_at databuf_size databuf 0 in
    record {
      allocated = length title + 2 + (length x.name + length x.value + 4) + 2 + length text;
      written = title ++ (crlf ++ (line_of x ++ (crlf ++ (text ++ 0 ∷ []))));
    }

unfoldable pub build_headw : Bytes → HeadEntry → Built
build_headw title x = record {
  allocated = length title + 2 + (length x.name + length x.value + 4) + 2;
  written = title ++ (crlf ++ (line_of x ++ crlf));
}

-- the loops of `build_headp`
unfoldable pub lines_len : List HeadEntry → ℕ
lines_len [] = 0
lines_len (x ∷ xs) = length x.name + length x.value + 4 + lines_len xs

unfoldable pub lines : List HeadEntry → Bytes
lines [] = []
lines (x ∷ xs) = line_of x ++ lines xs

-- The head and the start of `blocklist`, `none` for -1.
unfoldable pub build_headp : Head → Bytes → Option Built
unfolding lines_len lines
build_headp head list_bytes =
    if ltb 32 (length head.entrys)
    then none
    else some (record {
      allocated = length head.title + 2 + lines_len head.entrys + 2 + length list_bytes;
      written = head.title ++ (crlf ++ (lines head.entrys ++ (crlf ++ list_bytes)));
    })

-- What `reportwrite` writes, and what it sends: as many bytes from behind the message.
unfoldable pub reportwrite : NodeEnv → ℕ → Built × Bytes
unfolding build_headw bytes_from
reportwrite e blocknum =
    let built =
      build_headw (codes "WRITE_OK")
        (ent (codes "Blocknum") (e.libc.sprintf (codes "%lld") blocknum)) in
    (built, bytes_from built.allocated e.junk built.allocated)

-- The bytes of the array `blocklist`, whose rows have 6400.
unfoldable pub list_bytes : NodeEnv → List Bytes → Bytes
unfolding bytes_from
list_bytes e names =
    bytes_from (64 * length names)
      (λ a. elim (get_elem? names (a / 6400)) [
        | none ↦ e.junk a
        | some name ↦ elim (get_elem? (name ++ 0 ∷ []) (a % 6400)) [ none ↦ e.junk a | some b ↦ b ]
      ])
      0

abbrev pub report_head : NodeEnv → Head
report_head e = record {
  head_len = 0;
  title = codes "SBPFS OK";
  entrys = ent (codes "USER") [] ∷ ent (codes "USER") [] ∷ ent (codes "Block_num") (dead e) ∷ [];
}

-- `sizeof(send_buf)` bytes of the message, and the code.
unfoldable pub reportlist : NodeEnv → Peer → Cmd Server (Bytes × ℤ)
unfolding getlist build_headp list_bytes recinfo
reportlist e peer = do
  code ← getlist e
  s ← get
  let built = build_headp (report_head e) (list_bytes e s.node.blocklist)
  elim built [
    | none ↦ crash
    | some b ↦ (do
      put_state (record s { sbphead = report_head e; send_buf = b.written })
      recinfo e peer
      s' ← get
      pure (take 8 b.written, (if str_eq s'.rec_buf (codes "SBPFS_OK") then pos 0 else minus 1)))
  ]

-- A request that has been decoded: the reply is left in `send_buf`. `reportwrite` gets an address
-- that is not set.
unfoldable pub ana_head : NodeEnv → Bytes → Cmd Server ℤ
unfolding get_head_entry_value readblock writeblock build_headr build_headw
ana_head e text = do
  blocknumc ← get_head_entry_value (codes "Arg0")
  offsetc ← get_head_entry_value (codes "Arg1")
  lengthc ← get_head_entry_value (codes "Arg2")
  blocknum ← number_of e blocknumc
  len ← number_of e lengthc
  s ← get
  put_state (record s { req_len = len })
  offset ← number_of e offsetc
  headmethod ← get_head_entry_value (codes "method")
  elim headmethod [
    | none ↦ pure (minus 1)
    | some method ↦
        if str_eq method (codes "READ")
        then (do
          status ← readblock e blocknum offset len
          s' ← get
          let head = status_head e status
          put_state (record s' {
            sbphead = head;
            send_buf = (build_headr s'.databuf head.title (ent content_len (dead e))).written;
          })
          pure (pos 0))
        else if str_eq method (codes "WRITE")
        then (do
          status ← writeblock e blocknum offset len text
          s' ← get
          let head = status_head e status
          put_state (record s' {
            sbphead = head;
            send_buf = (build_headw head.title (ent content_len (dead e))).written;
          })
          crash)
        else pure (pos 0)
  ]

-- A connection: the bytes that are sent, which are `sizeof(send_buf)`.
unfoldable pub sbp_recv : NodeEnv → Peer → Cmd Server Bytes
unfolding recinfo decode_head ana_head
sbp_recv e peer = do
  recinfo e peer
  s ← get
  code ← decode_head e s.rec_buf
  code' ← ana_head e s.rec_buf
  s' ← get
  pure (take 8 s'.send_buf)
