-- ===== src/Cfs/Path.antt =====
-- Paths: `get_filename_from_path`, `c_find_entry` and `c_lookup` of c_node/fs/cfs.c. A path is the
-- list of its bytes up to the terminating 0.
pub mod Split
pub mod Frame
use sbpfs.Common.{
  ℕ, ◌+◌, ◌*◌, ◌%◌, Option, none, some, ◌==◌, if◌then◌else◌, List, [], ◌∷◌, ◌++◌, take, drop, true,
  false,
}
use sbpfs.Common.Mem.{u32_mod}
use sbpfs.Common.Run.{Cmd, pos, pure, return_code, ◌>>=◌, get, or_endless, or_return}
use sbpfs.Cfs.State.{Dtree, Env, FileEntry, malloc, read_meta, s_dir}
use sbpfs.Cfs.Meta
use sbpfs.Cfs.Fat.{do_readfile}
use sbpfs.Cfs.Dir.{find_entry_by_name, entry_at}

-- The loop over the path: the last slash that does not end it, and whether a slash ends it.
last_slash : List ℕ → ℕ → Option ℕ → Option ℕ
last_slash [] i last = last
last_slash (c ∷ []) i last = last
last_slash (c ∷ d ∷ s) i last = last_slash (d ∷ s) (i + 1) (if c == b'/' then some i else last)

-- the path without the slash that ends it
trim_slash : List ℕ → List ℕ
trim_slash [] = []
trim_slash (c ∷ []) = if c == b'/' then [] else c ∷ []
trim_slash (c ∷ d ∷ s) = c ∷ trim_slash (d ∷ s)

-- The two strings that the loop leaves.
abbrev cut_at : List ℕ → Option ℕ → Option (List ℕ × List ℕ)
unfolding trim_slash
cut_at path none = none
cut_at path (some last) = some (take last path, drop (last + 1) (trim_slash path))

-- The path that is left of the caller's buffer, and the file's name.
unfoldable pub get_filename_from_path : List ℕ → Option (List ℕ × List ℕ)
unfolding last_slash trim_slash
get_filename_from_path path = cut_at path (last_slash path 0 none)

-- The parts of a path between its slashes; `c_find_entry` cuts one off in each call.
parts : List ℕ → List ℕ → List (List ℕ)
parts [] cur = cur ∷ []
parts (c ∷ s) cur = elim (c == b'/') [ true ↦ cur ∷ parts s [] | false ↦ parts s (cur ++ c ∷ []) ]

-- one call's own work: the entry `name` of the directory at `fb`
find_in : Env → ℕ → List ℕ → Cmd Dtree FileEntry
unfolding do_readfile find_entry_by_name entry_at read_meta Meta.blocks
find_in e fb name = do
  dt ← get
  raw ← malloc e 3 (Meta.blocks (read_meta dt fb) 0 * dt.sb.byts_per_sec % u32_mod)
  buf ← or_endless (do_readfile dt fb raw)
  found ← or_endless (find_entry_by_name buf name)
  p ← or_return (pos 1) found
  pure (entry_at buf p)

unfoldable pub c_find_entry : Env → ℕ → List (List ℕ) → Cmd Dtree FileEntry
unfolding find_in
c_find_entry e fb [] = return_code (pos 1)
c_find_entry e fb (name ∷ []) = find_in e fb name
c_find_entry e fb (name ∷ n ∷ rest) = do
  p ← find_in e fb name
  if p.type == s_dir then c_find_entry e p.fb (n ∷ rest) else return_code (pos 1)

-- `if (path[0] == '/') path++;`
skip_slash : List ℕ → List ℕ
skip_slash [] = []
skip_slash (c ∷ s) = if c == b'/' then s else c ∷ s

unfoldable pub c_lookup : Env → List ℕ → Cmd Dtree FileEntry
unfolding c_find_entry parts skip_slash entry_at
c_lookup e path dt = elim (skip_slash path) [
  | [] ↦ pure (entry_at dt.area 0) dt
  | c ∷ s ↦ c_find_entry e (entry_at dt.area 0).fb (parts (c ∷ s) []) dt
]
