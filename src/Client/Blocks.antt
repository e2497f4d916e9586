-- ===== src/Client/Blocks.antt =====
-- Reading and writing through a descriptor, libc/read_write.c: the control node says which blocks of
-- which data nodes hold the range, and the data nodes read or write them.
use sbpfs.Common.{
  ℕ, zero, suc, ◌+◌, ◌-◌, ◌/◌, ◌%◌, ◌==◌, leb, not, if◌then◌else◌, none, some, List, [], ◌∷◌, ◌++◌,
  length, take, drop, get_elem?, codes,
}
use sbpfs.Common.Mem.{Mem, u32_at, u64_at, u64_mod}
use sbpfs.Common.Run.{
  ℤ, pos, negsuc, minus, Cmd, pure, return_code, return_if, ◌>>=◌, ◌>>◌, get, put_state, ignoring,
}
use sbpfs.Head.Strings.{Bytes, starts_with}
use sbpfs.Head.{Head, HeadEntry}
use sbpfs.Trace.{Place}
use sbpfs.Net.{get_dnode_hostname}
use sbpfs.Client.State.{
  FileDesc, Client, Talker, Libc, data_err, head_err, req_err, t_file, dnode_service_port, at,
  seterr, fail, crash, in_bounds, set_fd,
}
use sbpfs.Client.Request.{
  ent, request_ok, request_err, method_entries, request_head, sbp_get_uand_p, message_of, talk,
  sendrec_hostname, head_of, exchange, process_result, refused,
}
use sbpfs.Client.Files.{fd_or, entry_of}

-- A `struct block_entry`, with its `d_nodes`.
pub record BlockEntry : Type 0 where
  pub block_id : ℕ
  pub offset_in_block : ℕ
  pub length_in_block : ℕ
  pub d_nodes : List ℕ

abbrev pub block_entry_size : ℕ
block_entry_size = 32

-- some bytes as memory, which is looked at in bounds only
abbrev pub memory : Bytes → Mem
memory bytes a = elim (get_elem? bytes a) [ none ↦ 0 | some b ↦ b ]

-- `(struct block_entry*) p`, for `n` entries
abbrev pub block_entries : ℕ → Mem → ℕ → List BlockEntry
block_entries zero m p = []
block_entries (suc n) m p =
    record {
      block_id = u64_at m p;
      offset_in_block = u32_at m (p + 8);
      length_in_block = u32_at m (p + 12);
      d_nodes = u32_at m (p + 16) ∷ u32_at m (p + 20) ∷ u32_at m (p + 24) ∷ [];
    }
    ∷ block_entries n m (p + block_entry_size)

abbrev pub rw_at : Bytes → ℕ → Place
rw_at func line = at (codes "read_write.c") func line

-- the entries of a request to a data node
abbrev pub block_request : Libc → Bytes → Bytes → BlockEntry → Bytes → List HeadEntry
block_request c auth_code method b content_len =
    ent (codes "Auth-Code") auth_code
    ∷ method_entries method (codes "3")
        (ent (codes "Arg0") (c.sprintf (codes "%lld") b.block_id)
          ∷ ent (codes "Arg1") (c.sprintf (codes "%d") b.offset_in_block)
          ∷ ent (codes "Arg2") (c.sprintf (codes "%d") b.length_in_block)
          ∷ [])
        content_len

module _ {W : Type 0} (talker : Talker W) (c : Libc) where
  -- The reply of a data node: what follows `REQUEST_OK`, 0 where the title is unknown, or the error exit.
  unfoldable pub block_result :
      {A : Type 0} → Place → Head → Cmd (Client W) A → A → Cmd (Client W) A
  unfolding starts_with refused
  block_result place head go unknown =
      if starts_with request_ok head.title
      then go
      else if starts_with request_err head.title
      then refused talker c head
      else (do seterr c head_err (codes "Could not identify data received") place; pure unknown)

  -- What `read_block` takes from a reply that is `REQUEST_OK`.
  unfoldable pub block_body : BlockEntry → Head → Bytes → Cmd (Client W) (ℕ × Bytes)
  unfolding entry_of
  block_body b head rec_data = do
    value ←
        entry_of talker c (codes "Content-Length") head_err (codes "Missing Content-Length Entry")
          (rw_at (codes "read_block") 195) head
    let content_l = c.atoll value
    if content_l == b.length_in_block
        then (do
          in_bounds (leb (head.head_len + content_l) (length rec_data))
          pure (content_l, take content_l (drop head.head_len rec_data)))
        else fail c data_err (codes "Length of data not match") (rw_at (codes "read_block") 200)

  -- The length that is returned, and what is copied to the buffer. `node` is the address of the node.
  unfoldable pub read_block : BlockEntry → ℕ → Bytes → Cmd (Client W) (ℕ × Bytes)
  unfolding sbp_get_uand_p message_of sendrec_hostname get_dnode_hostname head_of block_result
      block_body
  read_block b node auth_code = do
    (usr, pass) ← sbp_get_uand_p talker c
    message ←
        message_of talker c (rw_at (codes "read_block") 175)
          (request_head usr pass (block_request c auth_code (codes "READ") b (codes "0")))
    rec_data ←
        sendrec_hostname talker c (get_dnode_hostname (c.sprintf (codes "%u")) node)
          dnode_service_port message
    head ← head_of talker c (rw_at (codes "read_block") 184) rec_data
    block_result (rw_at (codes "read_block") 210) head (block_body b head rec_data) (0, [])

  -- The length that is returned.
  unfoldable pub write_block : BlockEntry → ℕ → Bytes → Bytes → Cmd (Client W) ℕ
  unfolding sbp_get_uand_p message_of talk get_dnode_hostname head_of block_result
  write_block b node buf auth_code = do
    (usr, pass) ← sbp_get_uand_p talker c
    let tran_len = c.sprintf (codes "%d") b.length_in_block
    message ←
        message_of talker c (rw_at (codes "write_block") 307)
          (request_head usr pass (block_request c auth_code (codes "WRITE") b tran_len))
    let place = rw_at (codes "write_block")
    in_bounds (leb b.length_in_block (length buf))
    rec_data ←
        talk talker c (place 315) (place 322) (place 334)
          (get_dnode_hostname (c.sprintf (codes "%u")) node) dnode_service_port
          (message ∷ take b.length_in_block buf ∷ [])
    head ← head_of talker c (place 339) rec_data
    block_result (place 361) head (pure b.length_in_block) 0

  -- The loop over the nodes of a block, up to the first that returns all of it.
  unfoldable pub read_nodes : BlockEntry → List ℕ → Bytes → Cmd (Client W) Bytes
  unfolding read_block
  read_nodes b [] auth_code = return_code (minus 1)
  read_nodes b (node ∷ nodes) auth_code =
      let rest = read_nodes b nodes auth_code in
      if node == 0 then rest else (do
        result ← ignoring (read_block b node auth_code)
        elim result [
          | none ↦ rest
          | some (rec_len, bytes) ↦ if leb b.length_in_block rec_len then pure bytes else rest
        ])

  -- The number of bytes, and the bytes of all blocks in order, for a buffer with `room` bytes left. What
  -- a read that fails leaves in the buffer is left out.
  unfoldable pub read_blocks : List BlockEntry → ℕ → Bytes → Cmd (Client W) (ℕ × Bytes)
  unfolding read_nodes
  read_blocks [] room auth_code = pure (0, [])
  read_blocks (b ∷ bs) room auth_code = do
    bytes ← read_nodes b b.d_nodes auth_code
    in_bounds (leb (length bytes) room)
    (n, rest) ← read_blocks bs (room - b.length_in_block) auth_code
    pure (b.length_in_block + n, bytes ++ rest)

  -- The loop over the nodes of a block: `k`, those that wrote it, and `l`, those that there are.
  unfoldable pub write_nodes : BlockEntry → List ℕ → Bytes → Bytes → Cmd (Client W) (ℕ × ℕ)
  unfolding write_block
  write_nodes b [] buf auth_code = pure (0, 0)
  write_nodes b (node ∷ nodes) buf auth_code =
      let rest = write_nodes b nodes buf auth_code in
      if node == 0 then rest else (do
        result ← ignoring (write_block b node buf auth_code)
        (k, l) ← rest
        elim result [
          | none ↦ pure (k, l + 1)
          | some rec_len ↦
              if leb b.length_in_block rec_len then pure (k + 1, l + 1) else pure (k, l + 1)
        ])

  -- The number of bytes that have been written.
  unfoldable pub write_blocks : List BlockEntry → Bytes → Bytes → Cmd (Client W) ℕ
  unfolding write_nodes
  write_blocks [] buf auth_code = pure 0
  write_blocks (b ∷ bs) buf auth_code = do
    (k, l) ← write_nodes b b.d_nodes buf auth_code
    return_if (not (k == l)) (minus 1)
    rest ← write_blocks bs (drop b.length_in_block buf) auth_code
    pure (b.length_in_block + rest)

  -- The blocks that the control node names in its reply.
  unfoldable pub blocks_of : Head → Bytes → Cmd (Client W) (List BlockEntry)
  unfolding entry_of u32_at u64_at
  blocks_of head rec_data = do
    let place = rw_at (codes "sbp_read_or_write")
    value ←
        entry_of talker c (codes "Content-Length") head_err (codes "Missing Content-Length Entry")
          (place 85) head
    let content_l = c.atoll value
    if content_l % block_entry_size == 0
        then (do
          in_bounds (leb (head.head_len + content_l) (length rec_data))
          pure (block_entries (content_l / block_entry_size) (memory rec_data) head.head_len))
        else fail c data_err (codes "Length of data not match") (place 92)

  -- The request of both, to the control node.
  unfoldable pub ask_blocks : FileDesc → ℕ → Bytes → Cmd (Client W) (List BlockEntry)
  unfolding exchange process_result blocks_of
  ask_blocks d len method = do
    let place = rw_at (codes "sbp_read_or_write")
    (head, rec_data) ← exchange talker c (place 79) (
        method_entries method (codes "3")
          (ent (codes "Arg0") (c.sprintf (codes "%lld") d.server_fd)
            ∷ ent (codes "Arg1") (c.sprintf (codes "%lld") d.offset)
            ∷ ent (codes "Arg2") (c.sprintf (codes "%lld") len)
            ∷ [])
          (codes "0"))
    process_result talker c (place 113) head
    blocks_of head rec_data

  -- `fds[fd]->offset += ret`
  unfoldable pub advance : ℕ → ℕ → Cmd (Client W) (Unit {0})
  advance n ret = do
    s ← get
    elim (s.fds n) [
      | none ↦ crash
      | some d ↦ put_state (set_fd n (some (record d { offset = (d.offset + ret) % u64_mod })) s)
    ]

  -- The number of bytes, and the bytes. A descriptor that is not there is a null pointer.
  unfoldable pub sbp_read : ℤ → ℕ → Cmd (Client W) (ℕ × Bytes)
  unfolding ask_blocks read_blocks advance
  sbp_read (negsuc n) len = return_code (minus 1)
  sbp_read (pos n) len = do
    s ← get
    elim (s.fds n) [
      | none ↦ crash
      | some d ↦
          if d.type == t_file
          then (do
            blocks ← ask_blocks d len (codes "READ")
            (ret, bytes) ← read_blocks blocks len d.auth_code
            advance n ret
            pure (ret, bytes))
          else fail c req_err (codes "Could not read or write dir") (rw_at (codes "sbp_read") 39)
    ]

  unfoldable pub sbp_write : ℤ → Bytes → Cmd (Client W) ℕ
  unfolding fd_or ask_blocks write_blocks advance
  sbp_write fd buf = do
    (n, d) ← fd_or fd
    if d.type == t_file
        then (do
          blocks ← ask_blocks d (length buf) (codes "WRITE")
          ret ← write_blocks blocks buf d.auth_code
          advance n ret
          pure ret)
        else fail c req_err (codes "Could not read or write dir") (rw_at (codes "sbp_write") 56)
