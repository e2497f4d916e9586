-- ===== src/Cfs/Init/Mkcfs.antt =====
-- The file system that `do_mkcfs` of c_node/fs/cfs.c makes.
use sbpfs.Common.{ℕ, ◌≤◌, ◌≡◌, refl, arith, codes, [], ◌∷◌, true}
use sbpfs.Common.Mem.{Mem, update, memcpy}
use sbpfs.Common.Run.{done}
use sbpfs.Cfs.State.{Dtree, Env, init_max, bytspersec, s_dir, endsec, freesec, initmode, read_meta}
use sbpfs.Cfs.Meta
use sbpfs.Cfs.Entry
use sbpfs.Cfs.Fat.Valid.{IsValid}
use sbpfs.Cfs.Fat.Chain.{IsChain}
use sbpfs.Cfs.Path.{c_lookup}
use sbpfs.Cfs.Dir.{is_dir_empty}
use sbpfs.Cfs.Init.{new_dir, do_mkcfs}

-- The root directory's buffer: it is owned by the root, and its parent is itself.
abbrev root_dir : Env → Mem
unfolding new_dir
root_dir e = new_dir e 0 1 1 1

abbrev root_entry : Mem
unfolding Entry.set_name Entry.set_type Entry.set_fb
root_entry = Entry.set_fb (Entry.set_type (Entry.set_name (λ _. 0) 0 0) 0 s_dir) 0 1

-- The state after `do_mkcfs`: sector 0 holds the root's entry and sector 1 the root directory.
fresh_disk : Env → Dtree → Dtree
unfolding update memcpy root_dir root_entry
fresh_disk e dt = record dt {
  sb = record {
    fstype = codes "cfs";
    byts_per_sec = 512;
    tot_sec_num = 64;
    fat_sec_num = 1;
    fat_num = 62;
    max_block_num = 0;
  };
  fat = update (update (λ _. 0) 0 endsec) 1 endsec;
  area = memcpy (memcpy e.junk 512 (root_dir e) 0 101) 0 root_entry 0 16;
}

module _ (e : Env) (dt : Dtree) (size : dt.dt_size ≡ init_max)
    (granted : e.grants 2 101 ≡ true) where
  do_mkcfs-fresh : do_mkcfs e init_max bytspersec dt ≡ done tt (fresh_disk e dt)
  unfolding do_mkcfs fresh_disk
  do_mkcfs-fresh = rw granted

  fresh-IsValid : IsValid (fresh_disk e dt)
  unfolding fresh_disk
  fresh-IsValid = record {
    byts = refl;
    whole = size;
    least = omega arith;
    most = omega arith;
    fat_secs = refl;
    data_secs = refl;
    spare = λ i h. ground arith;
  }

  -- Where the buffer has 32 KB and memory is granted for the root directory, `do_mkcfs` ends and makes
  -- a valid file system: the path `/` is found, it names the directory at sector 1, which is a chain of
  -- one sector, is empty, and belongs to the root with the initial mode; all sectors from 2 on are free.
  pub do_mkcfs-IsValid :
      (dt' : Dtree) × (do_mkcfs e init_max bytspersec dt ≡ done tt dt')
      × IsValid dt'
      × IsChain dt'.fat dt'.sb.fat_num 1 []
      × (c_lookup e (b'/' ∷ []) dt' ≡ done (record { name = 0; fb = 1; type = s_dir }) dt')
      × (Meta.uid (read_meta dt' 1) 0 ≡ 0)
      × (Meta.flags (read_meta dt' 1) 0 ≡ initmode)
      × (Meta.blocks (read_meta dt' 1) 0 ≡ 1)
      × (is_dir_empty (read_meta dt' 1) ≡ true)
      × ((a : ℕ) → 2 ≤ a → dt'.fat a ≡ freesec)
  unfolding fresh_disk c_lookup
  do_mkcfs-IsValid = (
    fresh_disk e dt,
    do_mkcfs-fresh,
    fresh-IsValid,
    (omega arith, refl),
    refl,
    unfold read_meta Meta.uid in refl,
    unfold read_meta Meta.flags in refl,
    unfold read_meta Meta.blocks in refl,
    unfold read_meta is_dir_empty in refl,
    λ a h. ground arith,
  )
