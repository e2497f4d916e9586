-- ===== src/Cfs/Dir.antt =====
-- Entries of a directory's buffer: `find_entry_by_name`, `do_remove_entry` and `is_dir_empty` of
-- c_node/fs/cfs.c. A pointer into the buffer is an offset.
pub mod Find
use sbpfs.Common.{
  ℕ, zero, suc, ◌+◌, ◌/◌, Option, none, some, ltb, ◌==◌, ◌&&◌, not, if◌then◌else◌, Bool, List, [],
  ◌∷◌,
}
use sbpfs.Common.Mem.{Mem, memcpy}
use sbpfs.Common.Run.{Cmd, pure, ◌>>=◌}
use sbpfs.Cfs.State.{Dtree, Env, FileEntry, malloc, sub64}
use sbpfs.Cfs.Meta
use sbpfs.Cfs.Entry

-- `!strcmp(m + a, name)`
unfoldable pub str_at : Mem → ℕ → List ℕ → Bool
str_at m a [] = m a == 0
str_at m a (c ∷ name) = (m a == c) && str_at m (a + 1) name

-- the string of an entry
unfoldable pub name_at : Mem → ℕ → ℕ
unfolding Meta.strbase Entry.name
name_at pdata p = 64 + Meta.strbase pdata 0 + Entry.name pdata p

-- `for (p = ep; p != ep + strbase; p++)`: `none` where the rounds run out, `some none` for NULL.
find_loop : ℕ → ℕ → Mem → List ℕ → Option (Option ℕ)
unfolding str_at name_at
find_loop zero p pdata name = none
find_loop (suc k) p pdata name =
    let rest = find_loop k (p + 16) pdata name in
    if p == 64 + Meta.strbase pdata 0
    then some none
    else if str_at pdata (name_at pdata p) name
    then some (some p)
    else rest

unfoldable pub find_entry_by_name : Mem → List ℕ → Option (Option ℕ)
unfolding find_loop
find_entry_by_name pdata name = find_loop (Meta.strbase pdata 0 / 16 + 1) 64 pdata name

-- `memcpy(ret, p, sizeof(file_entry_t))`
unfoldable pub entry_at : Mem → ℕ → FileEntry
unfolding Entry.name Entry.fb Entry.type
entry_at m p = record { name = Entry.name m p; fb = Entry.fb m p; type = Entry.type m p }

-- Closes the gap of an entry, and returns the new buffer.
unfoldable pub do_remove_entry : Env → Mem → ℕ → Cmd Dtree Mem
unfolding memcpy sub64 Meta.flen Meta.strbase Meta.set_strbase Meta.set_w_time Meta.set_flen
do_remove_entry e pdata entry = do
  let tmpsize = sub64 (Meta.flen pdata 0) entry
  _ ← malloc e 4 tmpsize
  let m0 = memcpy pdata entry pdata (entry + Entry.size) tmpsize
  let m1 = Meta.set_strbase m0 0 (sub64 (Meta.strbase m0 0) Entry.size)
  let m2 = Meta.set_w_time m1 0 e.now
  pure (Meta.set_flen m2 0 (sub64 (Meta.flen m2 0) Entry.size))

unfoldable pub is_dir_empty : Mem → Bool
unfolding Meta.strbase
is_dir_empty meta = not (ltb 32 (Meta.strbase meta 0))
