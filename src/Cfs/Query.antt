-- ===== src/Cfs/Query.antt =====
-- The operations of c_node/fs/cfs.c that change no directory: `c_getblocknum`, `c_getblocks`,
-- `c_stat`, `c_opendir`, `c_readdir`, `c_chown` and `c_chmod`.
pub mod Chmod
pub mod Frame
pub mod Modes
pub mod Owners
use Prim.Native.Nat.{bit_and, bit_or}
use sbpfs.Common.{
  ℕ, zero, suc, ◌+◌, ◌-◌, ◌*◌, ◌/◌, ◌%◌, Option, none, some, leb, ◌==◌, not, if◌then◌else◌, List,
  [], ◌∷◌,
}
use sbpfs.Common.Mem.{Mem, memcpy, u64_mod, u32_mod}
use sbpfs.Common.Run.{
  Cmd, ℤ, pos, minus, int_of_u32, pure, return_if, ◌>>=◌, ◌>>◌, get, put_state, or_endless, or_code,
}
use sbpfs.Cfs.State.{Dtree, Env, read_meta, sector, s_all, max_filename}
use sbpfs.Cfs.Meta
use sbpfs.Cfs.Entry
use sbpfs.Cfs.Block
use sbpfs.Cfs.Perm.{op_r, denied, permission_check, own_check}
use sbpfs.Cfs.Path.{c_lookup}
use sbpfs.Cfs.Parent.{open_parent, read_buffer, entry_or}

-- the meta data of the file that a path names, and its first sector
named_meta : Env → ℕ → List ℕ → Cmd Dtree (ℕ × Mem)
unfolding open_parent read_buffer entry_or Meta.blocks Entry.fb read_meta
named_meta e place path = do
  p ← open_parent e (minus 1) (minus 1) (or_code (minus 1)) path
  pdata ← read_buffer e place (Meta.blocks p.pmeta 0) 0 p.entry.fb
  ofile ← entry_or (minus 1) pdata p.filename
  dt ← get
  pure (Entry.fb pdata ofile, read_meta dt (Entry.fb pdata ofile))

unfoldable pub c_getblocknum : Env → List ℕ → Cmd Dtree ℤ
unfolding named_meta int_of_u32 Meta.strbase
c_getblocknum e path = do
  (fb, meta) ← named_meta e 16 path
  pure (int_of_u32 (Meta.strbase meta 0 / Block.size % u32_mod))

-- `for (i = 0; ptr != …; ptr++, i++) l[i] = ptr->block_num`, `none` where the rounds run out
block_nums : ℕ → ℕ → Mem → Option (List ℕ)
unfolding Meta.strbase Block.block_num
block_nums zero ptr buf = none
block_nums (suc k) ptr buf =
    let rest = block_nums k (ptr + Block.size) buf in
    if ptr == 64 + Meta.strbase buf 0
    then some []
    else elim rest [ none ↦ none | some l ↦ some (Block.block_num buf ptr ∷ l) ]

-- The list that is written to `l`; its length is what `c_getblocks` returns.
unfoldable pub c_getblocks : Env → List ℕ → Cmd Dtree (List ℕ)
unfolding named_meta read_buffer block_nums Meta.blocks
c_getblocks e path = do
  (fb, meta) ← named_meta e 17 path
  buf ← read_buffer e 18 (Meta.blocks meta 0) 0 fb
  or_endless (block_nums (Meta.strbase meta 0 / Block.size + 1) 64 buf)

pub record Stat : Type 0 where
  pub size : ℕ
  pub atime : ℕ
  pub mtime : ℕ
  pub ctime : ℕ
  pub owner : ℕ
  pub mode : ℕ

unfoldable pub c_stat : Env → ℕ → List ℕ → Cmd Dtree Stat
unfolding open_parent read_buffer entry_or permission_check Meta.blocks read_meta Entry.fb Meta.flen
    Meta.r_time Meta.w_time Meta.c_time Meta.uid Meta.flags
c_stat e uid path = do
  p ← open_parent e (minus 1) (minus 1) (or_code (minus 1)) path
  pdata ← read_buffer e 15 (Meta.blocks p.pmeta 0) 0 p.entry.fb
  ofile ← entry_or (minus 1) pdata p.filename
  dt ← get
  let meta = read_meta dt (Entry.fb pdata ofile)
  return_if (denied uid meta op_r) (minus 4)
  pure (record {
    size = Meta.flen meta 0;
    atime = Meta.r_time meta 0;
    mtime = Meta.w_time meta 0;
    ctime = Meta.c_time meta 0;
    owner = Meta.uid meta 0;
    mode = Meta.flags meta 0;
  })

-- The descriptor that is returned, and `*entnum`.
unfoldable pub c_opendir : Env → ℕ → List ℕ → Cmd Dtree (ℤ × ℕ)
unfolding c_lookup permission_check read_meta Meta.strbase int_of_u32
c_opendir e uid path = do
  entry ← or_code (minus 1) (c_lookup e path)
  dt ← get
  let meta = read_meta dt entry.fb
  return_if (denied uid meta op_r) (minus 4)
  pure (int_of_u32 entry.fb, Meta.strbase meta 0 / Entry.size)

-- the string at an offset, of which at most `n` bytes are read
str_from : Mem → ℕ → ℕ → List ℕ
str_from m a zero = []
str_from m a (suc n) = if m a == 0 then [] else m a ∷ str_from m (a + 1) n

-- The name and the type of an entry by its number. `name[MAX_FILENAME-1]` is set to 0.
unfoldable pub c_readdir : Env → ℕ → ℕ → Cmd Dtree (List ℕ × ℕ)
unfolding read_buffer str_from read_meta Meta.strbase Meta.blocks Entry.type Entry.name
c_readdir e fb entnum = do
  dt ← get
  let meta = read_meta dt fb
  return_if (leb (Meta.strbase meta 0) (entnum * Entry.size % u64_mod)) (minus 1)
  buf ← read_buffer e 21 (Meta.blocks meta 0) 0 fb
  let ptr = 64 + entnum * Entry.size
  let name = str_from buf (64 + Meta.strbase meta 0 + Entry.name buf ptr) (max_filename - 1)
  pure (name, Entry.type buf ptr)

-- `memcpy(dt->data + fb*bytsPerSec, &meta, sizeof(file_meta_t))`
unfoldable pub write_meta : ℕ → Mem → Dtree → Dtree
unfolding sector memcpy
write_meta fb meta dt = record dt { area = memcpy dt.area (sector dt fb) meta 0 Meta.size }

unfoldable pub c_chown : Env → List ℕ → ℕ → ℕ → Cmd Dtree ℤ
unfolding c_lookup own_check read_meta write_meta Meta.uid Meta.set_uid
c_chown e path newuid uid = do
  entry ← c_lookup e path
  dt ← get
  let meta = read_meta dt entry.fb
  let olduid = Meta.uid meta 0
  return_if (not (own_check uid olduid)) (pos 4)
  return_if (olduid == newuid) (pos 0)
  return_if (not (uid == 0)) (pos 4)
  put_state (write_meta entry.fb (Meta.set_uid meta 0 newuid) dt)
  pure (pos 0)

-- `meta.flags &= ~S_ALL; meta.flags |= mode;`
unfoldable pub chmod_flags : ℕ → ℕ → ℕ
chmod_flags flags mode = bit_or (bit_and flags (255 - s_all)) mode

unfoldable pub c_chmod : Env → List ℕ → ℕ → ℕ → Cmd Dtree ℤ
unfolding c_lookup own_check read_meta write_meta Meta.flags Meta.set_flags chmod_flags
c_chmod e path mode uid = do
  entry ← c_lookup e path
  dt ← get
  let meta = read_meta dt entry.fb
  return_if (not (own_check uid (Meta.uid meta 0))) (pos 4)
  put_state (write_meta entry.fb (Meta.set_flags meta 0 (chmod_flags (Meta.flags meta 0) mode)) dt)
  pure (pos 0)
