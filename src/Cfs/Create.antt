-- ===== src/Cfs/Create.antt =====
-- `c_open` and `c_mkdir` of c_node/fs/cfs.c.
pub mod Flags
use Prim.Native.Nat.{bit_or}
use sbpfs.Common.{
  ℕ, ◌+◌, ◌%◌, Option, none, some, ◌==◌, ◌&&◌, ◌||◌, not, if◌then◌else◌, Bool, List, [], ◌∷◌, ◌++◌,
  length,
}
use sbpfs.Common.Mem.{Mem, memcpy, put, u32_mod}
use sbpfs.Common.Run.{
  Cmd, ℤ, pos, minus, int_of_u32, pure, return_code, return_if, ◌>>=◌, ◌>>◌, get, or_endless,
  or_code, modify, ignoring,
}
use sbpfs.Cfs.State.{
  Dtree, Env, malloc, sectors_for, add64, s_dir, s_fil, sbp_o_rdonly, sbp_o_wronly, sbp_o_rdwr,
  sbp_o_creat,
}
use sbpfs.Cfs.Meta
use sbpfs.Cfs.Entry
use sbpfs.Cfs.Perm.{op_r, op_w, denied, permission_check}
use sbpfs.Cfs.Fat.{do_writefile}
use sbpfs.Cfs.Init.{initfile, initdir}
use sbpfs.Cfs.Dir.{find_entry_by_name}
use sbpfs.Cfs.Parent.{open_parent, read_buffer}

-- The size of a directory with one entry more: `flen + strlen(name) + 1 + sizeof(file_entry_t)`.
unfoldable pub grown : ℕ → List ℕ → ℕ
unfolding add64
grown flen name = add64 flen (Entry.size + length name + 1)

-- The new buffer up to the new entry, whose name starts where the strings end. `buf` is fresh.
unfoldable pub begin_entry : Mem → Mem → Mem → ℕ → Mem
unfolding memcpy Meta.strbase Meta.strlen Entry.set_name Entry.set_type
begin_entry buf pdata pmeta type =
    let end = 64 + Meta.strbase pmeta 0 in
    let m0 : Mem = memcpy buf 0 pdata 0 end in
    Entry.set_type (Entry.set_name m0 end (Meta.strlen pmeta 0)) end type

-- The rest of the new buffer: the strings move up by an entry, and the name is added to them.
unfoldable pub finish_entry : Mem → Mem → Mem → List ℕ → ℕ → ℕ → Mem
unfolding memcpy put add64 Meta.strbase Meta.strlen Meta.set_strbase Meta.set_strlen Meta.set_flen
    Meta.set_blocks
finish_entry buf pdata pmeta name newsize blocks =
    let m0 : Mem = Meta.set_strbase buf 0 (add64 (Meta.strbase buf 0) Entry.size) in
    let pool = 64 + Meta.strbase m0 0 in
    let m1 : Mem = memcpy m0 pool pdata (64 + Meta.strbase pmeta 0) (Meta.strlen pmeta 0) in
    let m2 : Mem = put m1 (pool + Meta.strlen pmeta 0) (name ++ 0 ∷ []) in
    let m3 : Mem = Meta.set_strlen m2 0 (add64 (Meta.strlen m2 0) (length name + 1)) in
    Meta.set_blocks (Meta.set_flen m3 0 newsize) 0 blocks

-- `ofile->fb`, set by a successful `initfile` or `initdir`
unfoldable pub set_fb_if : Mem → ℕ → Option ℕ → Mem
unfolding Entry.set_fb
set_fb_if buf p none = buf
set_fb_if buf p (some fb) = Entry.set_fb buf p fb

-- The branch of `c_open` for a name that is not there.
unfoldable pub create_file : Env → ℕ → ℕ → ℕ → List ℕ → Mem → Mem → Cmd Dtree ℤ
unfolding grown begin_entry finish_entry set_fb_if initfile do_writefile sectors_for int_of_u32
    Entry.fb
create_file e uid mode parent_fb name pmeta pdata = do
  let newsize = grown (Meta.flen pmeta 0) name
  buf ← malloc e 6 newsize
  let ofile = 64 + Meta.strbase pmeta 0
  let m0 = begin_entry buf pdata pmeta s_fil
  fb ← ignoring (initfile e uid mode)
  let m1 = set_fb_if m0 ofile fb
  dt ← get
  let m2 = finish_entry m1 pdata pmeta name newsize (sectors_for dt newsize % u32_mod)
  modify (do_writefile e parent_fb m2 newsize)
  pure (int_of_u32 (Entry.fb m2 ofile))

-- `oflags|flag` as a condition
unfoldable pub given : ℕ → ℕ → Bool
given oflags flag = not (bit_or oflags flag == 0)

unfoldable pub open_check : ℕ → Bool → Bool → Bool
unfolding given
open_check oflags wcheck rcheck =
    (wcheck && given oflags sbp_o_wronly)
    || (rcheck && given oflags sbp_o_rdonly)
    || (wcheck && rcheck && given oflags sbp_o_rdwr)

-- `c_open`, with what its flags decide: the check, and whether a file is created.
unfoldable pub open_path : Env → List ℕ → (Bool → Bool → Bool) → Bool → ℕ → ℕ → Cmd Dtree ℤ
unfolding open_parent permission_check read_buffer find_entry_by_name create_file Entry.type
    Entry.fb Meta.blocks int_of_u32
open_path e path check creates mode uid = do
  p ← open_parent e (minus 1) (minus 1) (or_code (minus 1)) path
  let wcheck = not (denied uid p.pmeta op_w)
  let rcheck = not (denied uid p.pmeta op_r)
  return_if (not (check wcheck rcheck)) (minus 4)
  pdata ← read_buffer e 5 (Meta.blocks p.pmeta 0) 0 p.entry.fb
  found ← or_endless (find_entry_by_name pdata p.filename)
  elim found [
    | none ↦
        if creates
        then create_file e uid mode p.entry.fb p.filename p.pmeta pdata
        else return_code (minus 1)
    | some ofile ↦
        if Entry.type pdata ofile == s_dir
        then return_code (minus 2)
        else pure (int_of_u32 (Entry.fb pdata ofile))
  ]

unfoldable pub c_open : Env → List ℕ → ℕ → ℕ → ℕ → Cmd Dtree ℤ
unfolding open_path given open_check
c_open e path oflags mode uid =
    open_path e path (open_check oflags) (given oflags sbp_o_creat) mode uid

unfoldable pub c_mkdir : Env → List ℕ → ℕ → Cmd Dtree ℤ
unfolding open_parent permission_check read_buffer find_entry_by_name grown begin_entry finish_entry
    set_fb_if initdir do_writefile sectors_for Meta.blocks Meta.set_count Meta.count
c_mkdir e path uid = do
  p ← open_parent e (pos 1) (pos 2) (λ m. m) path
  return_if (denied uid p.pmeta op_w) (pos 4)
  pdata ← read_buffer e 7 (Meta.blocks p.pmeta 0) 0 p.entry.fb
  found ← or_endless (find_entry_by_name pdata p.filename)
  return_if (elim found [ none ↦ Bool.false | some _ ↦ Bool.true ]) (pos 3)
  let newsize = grown (Meta.flen p.pmeta 0) p.filename
  _ ← malloc e 8 newsize
  let newdir = 64 + Meta.strbase p.pmeta 0
  let m0 = begin_entry (λ _. 0) pdata p.pmeta s_dir
  fb ← ignoring (initdir e uid (some p.entry.fb))
  let m1 = set_fb_if m0 newdir fb
  dt ← get
  let m2 = finish_entry m1 pdata p.pmeta p.filename newsize (sectors_for dt newsize % u32_mod)
  let m3 = Meta.set_count m2 0 ((Meta.count m2 0 + 1) % u32_mod)
  modify (do_writefile e p.entry.fb m3 newsize)
  pure (pos 0)
