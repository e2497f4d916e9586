-- ===== src/Cfs/Init.antt =====
-- Fresh files and directories, and the fresh file system: `initfile`, `initdir` and `do_mkcfs` of
-- c_node/fs/cfs.c.
pub mod Mkcfs
use sbpfs.Common.{ℕ, ◌+◌, ◌-◌, ◌*◌, ◌/◌, ◌%◌, Option, none, some, [], ◌∷◌, codes}
use sbpfs.Common.Mem.{Mem, update, memcpy, put, u32_mod}
use sbpfs.Common.Run.{Cmd, done, endless, pure, ◌>>=◌, ◌>>◌, get, put_state, modify, ignoring}
use sbpfs.Cfs.State.{Dtree, Env, malloc, sectors_for, s_dir, initmode, endsec}
use sbpfs.Cfs.Meta
use sbpfs.Cfs.Entry
use sbpfs.Cfs.Fat.{alloc_fat, write_loop}

-- an entry's `fb`: the one that was set, or the one that stood there
abbrev fb_or : ℕ → Option ℕ → ℕ
fb_or old none = old
fb_or old (some fb) = fb

-- a free sector from the start of the table
alloc_first : Env → Cmd Dtree ℕ
unfolding alloc_fat
alloc_first e dt = elim (alloc_fat e 0 dt) [ none ↦ endless | some (i, dt') ↦ done i dt' ]

-- the `file_meta_t` that both start with, over zeros
unfoldable pub new_meta : Env → ℕ → ℕ → ℕ → Mem
unfolding Meta.set_uid Meta.set_count Meta.set_c_time Meta.set_r_time Meta.set_w_time
    Meta.set_blocks Meta.set_flags
new_meta e uid flags blocks =
    let m0 : Mem = Meta.set_flags (λ _. 0) 0 flags in
    let m1 : Mem = Meta.set_c_time m0 0 e.now in
    let m2 : Mem = Meta.set_r_time m1 0 e.now in
    let m3 : Mem = Meta.set_w_time m2 0 e.now in
    let m4 : Mem = Meta.set_uid m3 0 uid in
    let m5 : Mem = Meta.set_count m4 0 1 in Meta.set_blocks m5 0 blocks

-- Returns the sector that becomes `file_entry->fb`.
unfoldable pub initfile : Env → ℕ → ℕ → Cmd Dtree ℕ
unfolding alloc_first new_meta write_loop sectors_for
initfile e uid mode = do
  _ ← malloc e 1 Meta.size
  fat_index ← alloc_first e
  dt ← get
  let count = sectors_for dt Meta.size
  modify (write_loop e count 0 fat_index Meta.size (new_meta e uid mode count))
  pure fat_index

-- `sizeof(file_meta_t) + 2*sizeof(file_entry_t) + 5`
abbrev pub initdir_size : ℕ
initdir_size = 101

-- The buffer of a directory that holds `.` and `..`.
unfoldable pub new_dir : Env → ℕ → ℕ → ℕ → ℕ → Mem
unfolding new_meta put Meta.set_flen Meta.set_strbase Meta.set_strlen Meta.set_count Entry.set_name
    Entry.set_type Entry.set_fb
new_dir e uid blocks fb parent_fb =
    let m0 : Mem = new_meta e uid initmode blocks in
    let m1 : Mem = Meta.set_flen m0 0 initdir_size in
    let m2 : Mem = Meta.set_strbase m1 0 32 in
    let m3 : Mem = Meta.set_strlen m2 0 5 in
    let m4 : Mem = put m3 96 (b'.' ∷ 0 ∷ b'.' ∷ b'.' ∷ 0 ∷ []) in
    let m5 : Mem = Entry.set_fb (Entry.set_type (Entry.set_name m4 64 0) 64 s_dir) 64 fb in
    let m6 : Mem = Entry.set_fb (Entry.set_type (Entry.set_name m5 80 2) 80 s_dir) 80 parent_fb in
    Meta.set_count m6 0 3

-- Returns the sector that becomes `file_entry->fb`. The parent `none` is the entry itself.
unfoldable pub initdir : Env → ℕ → Option ℕ → Cmd Dtree ℕ
unfolding alloc_first new_dir write_loop sectors_for
initdir e uid parent = do
  _ ← malloc e 2 initdir_size
  fat_index ← alloc_first e
  dt ← get
  let count = sectors_for dt initdir_size
  let parent_fb = fb_or fat_index parent
  modify (write_loop e count 0 fat_index initdir_size (new_dir e uid count fat_index parent_fb))
  pure fat_index

-- `dt_buf` has just been granted by `malloc`; the root's entry is at the start of the data area.
unfoldable pub do_mkcfs : Env → ℕ → ℕ → Cmd Dtree (Unit {0})
unfolding initdir update Entry.set_name Entry.set_type Entry.set_fb memcpy
do_mkcfs e size byts_per_sec = do
  dt ← get
  let tot_sec_num = size / byts_per_sec
  let fat_size = tot_sec_num * 4 % u32_mod
  let fat_sec_num = (fat_size + byts_per_sec - 1) % u32_mod / byts_per_sec
  put_state (record dt {
    sb = record {
      fstype = codes "cfs";
      byts_per_sec = byts_per_sec;
      tot_sec_num = tot_sec_num;
      fat_sec_num = fat_sec_num;
      fat_num = (size + u32_mod + u32_mod - fat_size - byts_per_sec) % u32_mod / byts_per_sec;
      max_block_num = 0;
    };
    fat = update (λ _. 0) 0 endsec;
    area = e.junk;
  })
  root ← ignoring (initdir e 0 none)
  dt' ← get
  let fb = fb_or 0 root
  let root_entry = Entry.set_fb (Entry.set_type (Entry.set_name (λ _. 0) 0 0) 0 s_dir) 0 fb
  put_state (record dt' { area = memcpy dt'.area 0 root_entry 0 Entry.size })
