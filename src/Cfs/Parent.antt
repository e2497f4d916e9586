-- ===== src/Cfs/Parent.antt =====
-- What the operations on a path of c_node/fs/cfs.c start with: the name is cut off, the parent is
-- looked up, and the parent's meta data and its whole buffer are read.
use sbpfs.Common.{ℕ, ◌+◌, ◌*◌, ◌%◌, ◌==◌, not, List}
use sbpfs.Common.Mem.{Mem, u32_mod}
use sbpfs.Common.Run.{Cmd, ℤ, pure, return_if, ◌>>=◌, ◌>>◌, get, or_endless, or_return}
use sbpfs.Cfs.State.{Dtree, Env, FileEntry, malloc, read_meta, s_dir}
use sbpfs.Cfs.Fat.{do_readfile}
use sbpfs.Cfs.Dir.{find_entry_by_name}
use sbpfs.Cfs.Path.{get_filename_from_path, c_lookup}

-- the name, and the parent's entry; `code` is returned where there is none, `kind` where it is no
-- directory, and `on_lookup` wraps the code of the lookup
pub record Parent : Type 0 where
  pub filename : List ℕ
  pub entry : FileEntry
  pub pmeta : Mem

unfoldable pub open_parent :
    Env → ℤ → ℤ → (Cmd Dtree FileEntry → Cmd Dtree FileEntry) → List ℕ → Cmd Dtree Parent
unfolding get_filename_from_path c_lookup read_meta
open_parent e code kind on_lookup path = do
  (dir, filename) ← or_return code (get_filename_from_path path)
  parent ← on_lookup (c_lookup e dir)
  return_if (not (parent.type == s_dir)) kind
  dt ← get
  pure (record { filename = filename; entry = parent; pmeta = read_meta dt parent.fb })

-- `malloc((pmeta.blocks + extra) * bytsPerSec)` and `do_readdir`
unfoldable pub read_buffer : Env → ℕ → ℕ → ℕ → ℕ → Cmd Dtree Mem
unfolding do_readfile
read_buffer e place blocks extra fb = do
  dt ← get
  raw ← malloc e place ((blocks + extra) % u32_mod * dt.sb.byts_per_sec % u32_mod)
  or_endless (do_readfile dt fb raw)

-- the offset of an entry by name, or the code where there is none
unfoldable pub entry_or : ℤ → Mem → List ℕ → Cmd Dtree ℕ
unfolding find_entry_by_name
entry_or code pdata name = do
  found ← or_endless (find_entry_by_name pdata name)
  or_return code found
