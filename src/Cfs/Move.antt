-- ===== src/Cfs/Move.antt =====
-- `c_move` of c_node/fs/cfs.c.
use sbpfs.Common.{
  ℕ, ◌+◌, ◌-◌, ◌%◌, Option, none, some, ◌==◌, ◌||◌, not, if◌then◌else◌, Bool, List, [], ◌∷◌, ◌++◌,
  length,
}
use sbpfs.Common.Mem.{Mem, memcpy, put, u32_mod}
use sbpfs.Common.Run.{
  Cmd, ℤ, pos, pure, return_if, ◌>>=◌, ◌>>◌, get, or_endless, or_return, modify, ignoring,
}
use sbpfs.Cfs.State.{Dtree, Env, read_meta, add64, s_dir}
use sbpfs.Cfs.Meta
use sbpfs.Cfs.Entry
use sbpfs.Cfs.Perm.{op_w, denied, permission_check}
use sbpfs.Cfs.Fat.{do_writefile}
use sbpfs.Cfs.Dir.{find_entry_by_name, do_remove_entry}
use sbpfs.Cfs.Path.{get_filename_from_path, c_lookup}
use sbpfs.Cfs.Parent.{read_buffer, entry_or}

-- The branch for one directory: `strcpy(spdata+pmeta->strlen, dstname)`, and the entry's new name.
unfoldable pub rename : Env → Mem → ℕ → List ℕ → Mem
unfolding put add64 Meta.strlen Meta.flen Meta.set_w_time Meta.set_strlen Meta.set_flen
    Entry.set_name
rename e spdata srcent dstname =
    let m0 : Mem = Meta.set_w_time spdata 0 e.now in
    let m1 : Mem = put m0 (Meta.strlen m0 0) (dstname ++ 0 ∷ []) in
    let m2 : Mem = Entry.set_name m1 srcent (Meta.strlen m1 0) in
    let m3 : Mem = Meta.set_strlen m2 0 (add64 (Meta.strlen m2 0) (length dstname + 1)) in
    Meta.set_flen m3 0 (add64 (Meta.flen m3 0) (length dstname + 1))

-- The target's buffer in the branch for two directories: the entry and the name are added.
unfoldable pub adopt : Mem → Mem → ℕ → List ℕ → Mem
unfolding memcpy put add64 Meta.strbase Meta.strlen Meta.set_strbase Meta.set_strlen
adopt dpdata spdata srcent dstname =
    let m0 : Mem = memcpy dpdata (64 + Meta.strbase dpdata 0) spdata srcent Entry.size in
    let m1 : Mem = Meta.set_strbase m0 0 (add64 (Meta.strbase m0 0) Entry.size) in
    let m2 : Mem =
      memcpy m1 (64 + Meta.strbase m1 0) dpdata (64 + Meta.strbase dpdata 0) (Meta.strlen m1 0) in
    let m3 : Mem = put m2 (64 + Meta.strbase m2 0 + Meta.strlen m2 0) (dstname ++ 0 ∷ []) in
    Meta.set_strlen m3 0 (add64 (Meta.strlen m3 0) (length dstname + 1))

-- `dpmeta->count++; spmeta->count--;` for a directory: the amount is 1 or 2^32 - 1.
unfoldable pub add_count : Mem → ℕ → Mem
unfolding Meta.count Meta.set_count
add_count m n = Meta.set_count m 0 ((Meta.count m 0 + n) % u32_mod)

-- the buffer that a removal leaves, or the old one where it fails
abbrev buffer_or : Mem → Option Mem → Mem
buffer_or old none = old
buffer_or old (some m) = m

-- The `malloc` of the strings' copy is not checked. The code of `do_remove_entry` is ignored; where
-- it fails the source's buffer keeps the entry. The type is read at `srcent` after the removal.
unfoldable pub move_across : Env → ℕ → ℕ → Mem → Mem → ℕ → List ℕ → Cmd Dtree ℤ
unfolding adopt add_count do_remove_entry do_writefile Meta.flen Entry.type
move_across e sparent dparent spdata dpdata srcent dstname = do
  let d0 = adopt dpdata spdata srcent dstname
  removed ← ignoring (do_remove_entry e spdata srcent)
  let s0 = buffer_or spdata removed
  let moved = Entry.type s0 srcent == s_dir
  let s1 = if moved then add_count s0 (u32_mod - 1) else s0
  let d1 = if moved then add_count d0 1 else d0
  modify (do_writefile e sparent s1 (Meta.flen s1 0))
  modify (do_writefile e dparent d1 (Meta.flen d1 0))
  pure (pos 0)

unfoldable pub c_move : Env → List ℕ → List ℕ → ℕ → Cmd Dtree ℤ
unfolding get_filename_from_path c_lookup permission_check read_meta read_buffer entry_or
    find_entry_by_name rename move_across do_writefile Meta.blocks Meta.flen
c_move e srcpath dstpath uid = do
  (srcdir, srcname) ← or_return (pos 1) (get_filename_from_path srcpath)
  (dstdir, dstname) ← or_return (pos 1) (get_filename_from_path dstpath)
  sparent ← c_lookup e srcdir
  return_if (not (sparent.type == s_dir)) (pos 1)
  dparent ← c_lookup e dstdir
  return_if (not (dparent.type == s_dir)) (pos 1)
  dt ← get
  let spmeta = read_meta dt sparent.fb
  let dpmeta = read_meta dt dparent.fb
  return_if (denied uid spmeta op_w || denied uid dpmeta op_w) (pos 4)
  spdata ← read_buffer e 12 (Meta.blocks spmeta 0) 1 sparent.fb
  srcent ← entry_or (pos 1) spdata srcname
  dpdata ← read_buffer e 13 (Meta.blocks dpmeta 0) 1 dparent.fb
  found ← or_endless (find_entry_by_name dpdata dstname)
  return_if (elim found [ none ↦ Bool.false | some _ ↦ Bool.true ]) (pos 2)
  if sparent.fb == dparent.fb
      then (do
        let m = rename e spdata srcent dstname
        modify (do_writefile e sparent.fb m (Meta.flen m 0))
        pure (pos 0))
      else move_across e sparent.fb dparent.fb spdata dpdata srcent dstname
