-- ===== src/OldNode/Blocks.antt =====
-- The blocks of the earlier data node, d_node/blockman.c: like those of d_node/haha, with a buffer
-- `databuf` of 4096 bytes that every block is read into.
use sbpfs.Common.{
  ℕ, ◌+◌, ◌-◌, ◌*◌, ◌%◌, ltb, if◌then◌else◌, none, some, [], ◌∷◌, ◌++◌, length, get_elem?, take,
  codes, str_eq,
}
use sbpfs.Common.Mem.{Mem, put}
use sbpfs.Common.Run.{ℤ, pos, minus, Cmd, pure, ◌>>=◌, ◌>>◌, get, put_state}
use sbpfs.Head.Strings.{Bytes}
use sbpfs.Head.{Head}
use sbpfs.Client.State.{crash}
use sbpfs.Node.Files.{
  NodeEnv, DNode, File, read_at, write_at, bytes_from, field, set_file, remove_name, del_place,
  name_or, block_file_size,
}
use sbpfs.Node.Listing.{list_loop, read_count}

-- The globals of blockman.c and tcpserver.c. `blolist` of the node is not used.
pub record Server : Type 0 where
  pub node : DNode
  pub databuf : Mem
  pub sbphead : Head
  pub rec_buf : Bytes
  pub req_len : ℕ
  pub send_buf : Bytes

abbrev pub databuf_size : ℕ
databuf_size = 4096

abbrev pub with_node : Server → DNode → Server
with_node s d = record s { node = d }

-- The file of the list, with the count and a record in it.
unfoldable pub write_listing : NodeEnv → ℕ → ℕ → Bytes → File → File
unfolding write_at field
write_listing e bnum place record_bytes f =
    write_at (write_at f 0 (field 4 (e.libc.sprintf (codes "%d") bnum) e.junk)) (place * 64)
      record_bytes

unfoldable pub getlist : NodeEnv → Cmd Server ℤ
unfolding list_loop read_count
getlist e = do
  s ← get
  let f = s.node.listing
  put_state
      (with_node s (record s.node { blocklist = (list_loop e f (read_count e f) 0 e.junk).0 }))
  pure (pos 0)

-- The records of `initlist`: the text 0000, and what the buffer holds behind it.
unfoldable pub initlist : NodeEnv → Cmd Server (Unit {0})
unfolding put
initlist e = do
  s ← get
  let old = s.node.listing
  put_state (
      with_node s (record s.node {
        listing = record {
          size = if ltb old.size 409_664 then 409_664 else old.size;
          bytes = λ a.
              if ltb a 409_664 then put e.junk 0 (codes "0000" ++ 0 ∷ []) (a % 64) else old.bytes a;
        };
      }))

unfoldable pub getpath : NodeEnv → ℕ → Bytes
getpath e blocknum =
    codes "/home/cxy/"
    ++ (e.libc.sprintf (codes "%d") (blocknum % 100)
        ++ b'/' ∷ e.libc.sprintf (codes "%lld") blocknum)

-- the bytes that a file has for a read
unfoldable pub held : File → ℕ → ℕ → ℕ
held f offset len = if ltb (f.size - offset) len then f.size - offset else len

-- More bytes than `databuf` has are written behind it.
unfoldable pub readblock : NodeEnv → ℕ → ℕ → ℕ → Cmd Server ℤ
unfolding getpath held
readblock e blocknum offset len = do
  s ← get
  elim (s.node.files (getpath e blocknum)) [
    | none ↦ pure (minus 1)
    | some f ↦ if ltb databuf_size (held f offset len) then crash else (do
      put_state (record s {
        databuf = λ i. if ltb i len then read_at f offset s.databuf i else s.databuf i;
      })
      pure (pos 0))
  ]

unfoldable pub addlist : NodeEnv → ℕ → DNode → DNode
unfolding write_listing field
addlist e blocknum d =
    let name = e.libc.sprintf (codes "%lld") blocknum in
    let bnum = length d.blocklist + 1 in
    record d {
      blocklist = d.blocklist ++ name ∷ [];
      listing = write_listing e bnum bnum (field 64 name e.junk) d.listing;
    }

-- `1024 * 16` copies of a buffer that starts with a text
unfoldable pub new_block : NodeEnv → File
unfolding put
new_block e = record {
  size = block_file_size;
  bytes = λ a. put e.junk 0 (codes "567890" ++ 0 ∷ []) (a % 1024);
}

-- The file that could not be opened is used.
unfoldable pub createblock : NodeEnv → ℕ → Cmd Server (Unit {0})
unfolding getpath addlist new_block
createblock e blocknum =
    if e.creates (getpath e blocknum)
    then (do
      s ← get
      put_state
          (with_node s (addlist e blocknum (set_file (getpath e blocknum) (new_block e) s.node))))
    else crash

-- The block is created where it has no file. A file that is not there even then is used.
unfoldable pub writeblock : NodeEnv → ℕ → ℕ → ℕ → Bytes → Cmd Server ℤ
unfolding getpath createblock write_at
writeblock e blocknum offset len content = do
  s ← get
  elim (s.node.files (getpath e blocknum)) [ none ↦ createblock e blocknum | some f ↦ pure tt ]
  s' ← get
  elim (s'.node.files (getpath e blocknum)) [
    | none ↦ crash
    | some f ↦ (do
      put_state (
          with_node s'
            (set_file (getpath e blocknum) (write_at f offset (take len content)) s'.node))
      pure (pos 0))
  ]

unfoldable pub deletelist : NodeEnv → ℕ → DNode → DNode
unfolding remove_name del_place write_listing bytes_from field
deletelist e blocknum d =
    let p = e.libc.sprintf (codes "%lld") blocknum in
    let names = remove_name (length d.blocklist) p d.blocklist in
    record d {
      blocklist = names;
      listing = elim (del_place (length d.blocklist) p d.blocklist 0 none) [
        | some i ↦
            write_listing e (length names) (i + 1) (field 64 (name_or p (get_elem? names i)) e.junk)
              d.listing
        | none ↦ write_listing e (length names) (e.stray + 1) (bytes_from 64 e.junk 0) d.listing
      ];
    }

unfoldable pub deleteblock : NodeEnv → ℕ → DNode → DNode
unfolding getpath deletelist
deleteblock e blocknum d =
    deletelist e blocknum
      (record d { files = λ p. if str_eq p (getpath e blocknum) then none else d.files p })
