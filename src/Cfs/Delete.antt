-- ===== src/Cfs/Delete.antt =====
-- `c_remove` and `c_rmdir` of c_node/fs/cfs.c.
use sbpfs.Common.{ℕ, ◌+◌, ◌-◌, ◌%◌, ◌==◌, not, List}
use sbpfs.Common.Mem.{Mem, u32_mod}
use sbpfs.Common.Run.{Cmd, ℤ, pos, pure, return_if, ◌>>=◌, ◌>>◌, get, modify}
use sbpfs.Cfs.State.{Dtree, Env, read_meta, s_dir}
use sbpfs.Cfs.Meta
use sbpfs.Cfs.Entry
use sbpfs.Cfs.Perm.{op_w, denied, permission_check}
use sbpfs.Cfs.Fat.{reset_fat, do_writefile}
use sbpfs.Cfs.Dir.{do_remove_entry, is_dir_empty}
use sbpfs.Cfs.Parent.{open_parent, read_buffer, entry_or}

-- `count--`, then the sectors of the entry are freed, the entry is closed up and the parent written.
unfoldable pub drop_entry : Env → ℕ → Mem → ℕ → Cmd Dtree ℤ
unfolding reset_fat do_remove_entry do_writefile Meta.set_count Meta.count Entry.fb Meta.flen
drop_entry e parent_fb pdata entry = do
  let m0 = Meta.set_count pdata 0 ((Meta.count pdata 0 + u32_mod - 1) % u32_mod)
  modify (reset_fat (Entry.fb m0 entry))
  m1 ← do_remove_entry e m0 entry
  modify (do_writefile e parent_fb m1 (Meta.flen m1 0))
  pure (pos 0)

unfoldable pub c_remove : Env → List ℕ → ℕ → Cmd Dtree ℤ
unfolding open_parent permission_check read_buffer entry_or drop_entry Entry.type Meta.blocks
c_remove e path uid = do
  p ← open_parent e (pos 1) (pos 1) (λ m. m) path
  return_if (denied uid p.pmeta op_w) (pos 4)
  pdata ← read_buffer e 11 (Meta.blocks p.pmeta 0) 0 p.entry.fb
  entry ← entry_or (pos 1) pdata p.filename
  return_if (Entry.type pdata entry == s_dir) (pos 2)
  drop_entry e p.entry.fb pdata entry

unfoldable pub c_rmdir : Env → List ℕ → ℕ → Cmd Dtree ℤ
unfolding open_parent permission_check read_buffer entry_or drop_entry is_dir_empty read_meta
    Entry.type Meta.blocks Entry.fb
c_rmdir e path uid = do
  p ← open_parent e (pos 1) (pos 1) (λ m. m) path
  return_if (denied uid p.pmeta op_w) (pos 4)
  pdata ← read_buffer e 9 (Meta.blocks p.pmeta 0) 0 p.entry.fb
  rmdirent ← entry_or (pos 1) pdata p.filename
  return_if (not (Entry.type pdata rmdirent == s_dir)) (pos 2)
  dt ← get
  let meta = read_meta dt (Entry.fb pdata rmdirent)
  _ ← read_buffer e 10 (Meta.blocks meta 0) 0 (Entry.fb pdata rmdirent)
  return_if (not (is_dir_empty meta)) (pos 3)
  drop_entry e p.entry.fb pdata rmdirent
