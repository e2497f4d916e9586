-- ===== src/Node/Files.antt =====
-- The blocks of a data node, d_node/haha/blockman.c. A file is its size and its bytes, and the file
-- system finds it by its path. The file of the list of blocks is taken to open; a number that is
-- printed into a buffer too small for it is taken to damage nothing else.
use sbpfs.Common.{
  ℕ, zero, suc, ◌+◌, ◌*◌, ◌%◌, ltb, Bool, true, false, if◌then◌else◌, Option, none, some, List, [],
  ◌∷◌, ◌++◌, length, get_elem?, take, codes, str_eq,
}
use sbpfs.Common.Mem.{Mem, put}
use sbpfs.Common.Run.{Cmd, pure, ◌>>=◌, ◌>>◌, get, put_state}
use sbpfs.Head.Strings.{Bytes}
use sbpfs.Client.State.{Libc, crash}

pub record File : Type 0 where
  pub size : ℕ
  pub bytes : Mem

-- `blocklist` up to `bnum`, `blolist` up to what `getlist` has read, and the file of the list
pub record DNode : Type 0 where
  pub files : Bytes → Option File
  pub blocklist : List Bytes
  pub blolist : List ℕ
  pub listing : File

-- What the C library supplies besides: `atoi`, whether a new file can be opened, what a buffer holds
-- that is not set, what stands in memory from `p` of `addlist` on when the name and then the count
-- have been printed into its buffers of 2 and 4 bytes, and what `delnum` holds where it is not set.
pub record NodeEnv : Type 0 where
  pub libc : Libc
  pub atoi : Bytes → ℕ
  pub creates : Bytes → Bool
  pub junk : Mem
  pub stack : Bytes → Bytes → Mem
  pub stray : ℕ

abbrev pub rootpath : Bytes
rootpath = codes "/home/hhf/blocks/"

-- `1024 * 16` times 1024 bytes
abbrev pub block_file_size : ℕ
block_file_size = 16_777_216

unfoldable pub getpath : NodeEnv → ℕ → Bytes
getpath e blocknum =
    rootpath
    ++ (e.libc.sprintf (codes "%d") (blocknum % 100)
        ++ b'/' ∷ e.libc.sprintf (codes "%lld") blocknum)

-- the bytes at `a`, of which there are `n`
unfoldable pub bytes_from : ℕ → Mem → ℕ → Bytes
bytes_from zero m a = []
bytes_from (suc n) m a = m a ∷ bytes_from n m (a + 1)

-- what `fread` of `length` bytes at an offset leaves in a buffer
abbrev pub read_at : File → ℕ → Mem → Mem
read_at f offset junk i = if ltb (offset + i) f.size then f.bytes (offset + i) else junk i

-- what `fwrite` of some bytes at an offset makes of a file
unfoldable pub write_at : File → ℕ → Bytes → File
unfolding put
write_at f offset bytes = record {
  size = if ltb f.size (offset + length bytes) then offset + length bytes else f.size;
  bytes = put f.bytes offset bytes;
}

-- The bytes that are read, `none` for -1.
unfoldable pub readblock : NodeEnv → ℕ → ℕ → ℕ → Cmd DNode (Option Bytes)
unfolding getpath bytes_from
readblock e blocknum offset length = do
  s ← get
  elim (s.files (getpath e blocknum)) [
    | none ↦ pure none
    | some f ↦ pure (some (bytes_from length (read_at f offset e.junk) 0))
  ]

abbrev pub set_file : Bytes → File → DNode → DNode
set_file path f s = record s { files = λ p. if str_eq p path then some f else s.files p }

-- The `n` bytes of a buffer that a text has been printed into.
unfoldable pub field : ℕ → Bytes → Mem → Bytes
unfolding bytes_from
field n text junk = take n (text ++ 0 ∷ bytes_from n junk 0)

-- The count, in the first four bytes of the file of the list.
unfoldable pub write_count : NodeEnv → ℕ → File → File
unfolding write_at field
write_count e bnum f = write_at f 0 (field 4 (e.libc.sprintf (codes "%lld") bnum) e.junk)

-- The name at a place of the list, in the 64 bytes of the file for it.
unfoldable pub write_record : NodeEnv → ℕ → Bytes → File → File
unfolding write_at field
write_record e i name f = write_at f ((i + 1) * 64) (field 64 name e.junk)

-- The name is added behind the others; a row behind the 64 of `blocklist` is taken to damage nothing
-- else. The 64 bytes of the file are read from `p`, behind its end.
unfoldable pub addlist : NodeEnv → ℕ → DNode → DNode
unfolding write_at bytes_from write_count
addlist e blocknum s =
    let name = e.libc.sprintf (codes "%lld") blocknum in
    let count = e.libc.sprintf (codes "%lld") (length s.blocklist + 1) in
    record s {
      blocklist = s.blocklist ++ name ∷ [];
      listing =
          write_at (write_count e (length s.blocklist + 1) s.listing)
            ((length s.blocklist + 1) * 64) (bytes_from 64 (e.stack name count) 0);
    }

abbrev pub zeros : File
zeros = record { size = block_file_size; bytes = λ _. 0 }

-- A file of zeros, and its name in the list. The file that could not be opened is used.
unfoldable pub createblock : NodeEnv → ℕ → Cmd DNode (Unit {0})
unfolding getpath addlist
createblock e blocknum =
    if e.creates (getpath e blocknum)
    then (do s ← get; put_state (addlist e blocknum (set_file (getpath e blocknum) zeros s)))
    else crash

-- `fopen(path, "rb+")`, for a block that is created where it is not there
unfoldable pub open_or_create : NodeEnv → ℕ → Cmd DNode (Option File)
unfolding createblock getpath
open_or_create e blocknum = do
  s ← get
  elim (s.files (getpath e blocknum)) [
    | some f ↦ pure (some f)
    | none ↦ (do createblock e blocknum; s' ← get; pure (s'.files (getpath e blocknum)))
  ]

-- Whether `length` bytes of the content have been written.
unfoldable pub writeblock : NodeEnv → ℕ → ℕ → ℕ → Bytes → Cmd DNode Bool
unfolding open_or_create write_at getpath
writeblock e blocknum offset length content = do
  file ← open_or_create e blocknum
  s ← get
  elim file [
    | none ↦ pure false
    | some f ↦ (do
      put_state (set_file (getpath e blocknum) (write_at f offset (take length content)) s)
      pure true)
  ]

-- `strcpy(blocklist[i], blocklist[bnum-1]); bnum--;`
abbrev pub last_name : Bytes → List Bytes → Bytes
last_name x [] = x
last_name x (y ∷ ys) = last_name y ys

abbrev pub but_last : Bytes → List Bytes → List Bytes
but_last x [] = []
but_last x (y ∷ ys) = x ∷ but_last y ys

-- `x` is taken out of `x ∷ xs` by the last name, which is not looked at again.
abbrev pub fill_gap : Bytes → List Bytes → List Bytes
fill_gap x [] = []
fill_gap x (y ∷ ys) = last_name y ys ∷ but_last y ys

unfoldable pub remove_name : ℕ → Bytes → List Bytes → List Bytes
remove_name zero p names = names
remove_name (suc k) p [] = []
remove_name (suc k) p (x ∷ xs) =
    if str_eq p x
    then elim (fill_gap x xs) [ [] ↦ [] | y ∷ ys ↦ y ∷ remove_name k p ys ]
    else x ∷ remove_name k p xs

-- `delnum`: the place of the last name that the loop replaces, from place `i` on
unfoldable pub del_place : ℕ → Bytes → List Bytes → ℕ → Option ℕ → Option ℕ
del_place zero p names i found = found
del_place (suc k) p [] i found = found
del_place (suc k) p (x ∷ xs) i found =
    if str_eq p x
    then elim (fill_gap x xs) [ [] ↦ some i | y ∷ ys ↦ del_place k p ys (i + 1) (some i) ]
    else del_place k p xs (i + 1) found

-- What stands at a place of the list: behind its end it is the name that was taken out last.
abbrev pub name_or : Bytes → Option Bytes → Bytes
name_or p none = p
name_or p (some name) = name

-- `deletelist`: the loop gets as many rounds as there are names. The place of the name gets its new
-- name in the file, and a stray place what is there where the name is not found.
unfoldable pub deletelist : NodeEnv → ℕ → DNode → DNode
unfolding remove_name del_place write_record write_count
deletelist e blocknum s =
    let p = e.libc.sprintf (codes "%lld") blocknum in
    let names = remove_name (length s.blocklist) p s.blocklist in
    let counted = write_count e (length names) s.listing in
    record s {
      blocklist = names;
      listing = elim (del_place (length s.blocklist) p s.blocklist 0 none) [
        | some i ↦ write_record e i (name_or p (get_elem? names i)) counted
        | none ↦ write_at counted ((e.stray + 1) * 64) (bytes_from 64 e.junk 0)
      ];
    }

-- `remove` of the block's file, if it is there, and of its name.
unfoldable pub deleteblock : NodeEnv → ℕ → DNode → DNode
unfolding getpath deletelist
deleteblock e blocknum s =
    deletelist e blocknum
      (record s { files = λ p. if str_eq p (getpath e blocknum) then none else s.files p })
