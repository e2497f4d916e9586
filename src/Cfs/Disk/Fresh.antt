-- ===== src/Cfs/Disk/Fresh.antt =====
-- `open_disk` of c_node/fs/cfs.c where the image of the tree cannot be loaded.
use sbpfs.Common.{◌≤◌, ◌≡◌, refl, ◌∙◌, true, Option, none, some, ℕ, suc, ◌+◌, ◌-◌, List, [], ◌∷◌}
use sbpfs.Common.Run.{negsuc, done}
use sbpfs.Cfs.State.{Dtree, init_max, bytspersec}
use sbpfs.Cfs.Meta
use sbpfs.Cfs.State.{s_dir, freesec, initmode, read_meta}
use sbpfs.Cfs.Dir.{is_dir_empty}
use sbpfs.Cfs.Fat.Valid.{IsValid}
use sbpfs.Cfs.Init.{do_mkcfs}
use sbpfs.Cfs.Init.Mkcfs.{do_mkcfs-IsValid}
use sbpfs.Cfs.Path.{c_lookup}
use sbpfs.Cfs.Disk.Layout.{Image}
use sbpfs.Cfs.Disk.{
  Os, Files, Loaded, Disk, broken, one_read, or_new, load_loop, load_file, tree_of, set_up, open_in,
  open_disk,
}

-- The image is missing, or `read` reports an error at once.
pub data IsUnreadable (o : Os) (name : List ℕ) (files : Files) : Type 0 where
  missing : files name ≡ none → IsUnreadable o name files
  failing :
      (f : Image) (n : ℕ)
      → files name ≡ some f
      → o.reads f 0 init_max ≡ negsuc n
      → IsUnreadable o name files

-- A tree with nothing but the directory / of the root: it has no entries but its own two, and the
-- sectors behind it are free.
pub record IsFreshTree (o : Os) (t : Dtree) : Type 0 where
  pub valid : IsValid t
  pub root : c_lookup o.env (b'/' ∷ []) t ≡ done (record { name = 0; fb = 1; type = s_dir }) t
  pub uid : Meta.uid (read_meta t 1) 0 ≡ 0
  pub flags : Meta.flags (read_meta t 1) 0 ≡ initmode
  pub blocks : Meta.blocks (read_meta t 1) 0 ≡ 1
  pub empty : is_dir_empty (read_meta t 1) ≡ true
  pub free : (a : ℕ) → 2 ≤ a → t.fat a ≡ freesec

module _ (o : Os) (granted : (place n : ℕ) → o.env.grants place n ≡ true) where
  one_read-broken :
      (f : Image) (r : Loaded) (n : ℕ)
      → o.reads f r.size (r.max - r.size) ≡ negsuc n
      → one_read o f r ≡ broken
  unfolding one_read
  one_read-broken f r n h = rw (one_read, h) refl

  broken_loop :
      (k : ℕ) (f : Image) (r : Loaded) (s : Files)
      → one_read o f r ≡ broken
      → load_loop (suc k) o f r s ≡ done none s
  unfolding load_loop
  broken_loop k f r s h = rw (load_loop, h) refl

  tree_of-size :
      (ip_index : ℕ) (i : Loaded)
      → (tree_of ip_index (record { size = init_max; max = init_max; buf = o.env.junk }) i).dt_size
        ≡ init_max
  unfolding tree_of
  tree_of-size ip_index i = refl

  load_file-unreadable :
      (name : List ℕ) (files : Files)
      → IsUnreadable o name files
      → load_file o name files ≡ done none files
  unfolding load_file load_loop
  load_file-unreadable name files (missing gone) = rw (load_file, gone) refl
  load_file-unreadable name files (failing f n there h) =
      let first : Loaded = record { size = 0; max = init_max; buf = o.env.junk } in
      rw (load_file, there, granted 100 init_max)
        (broken_loop (f.size + 1) f first files (one_read-broken f first n h))

  abbrev new_buffer : Loaded
  new_buffer = record { size = init_max; max = init_max; buf = o.env.junk }

  abbrev in_buffer : Option Loaded → Loaded
  in_buffer none = new_buffer
  in_buffer (some r) = r

  or_new-none : (place : ℕ) → or_new o place none ≡ some (new_buffer, true)
  unfolding or_new
  or_new-none place = rw (or_new, granted place init_max) refl

  open_in-loaded :
      (ip_index : ℕ) (in_name : List ℕ) (files : Files) (i : Option Loaded)
      → load_file o in_name files ≡ done i files
      → open_in o ip_index in_name new_buffer true files
        ≡ set_up o ip_index new_buffer true (in_buffer i) true files
  unfolding open_in
  open_in-loaded ip_index in_name files none second = rw (open_in, second, or_new-none 104) refl
  open_in-loaded ip_index in_name files (some r) second =
      rw (open_in, second) (unfold or_new in unfold set_up in refl)

  set_up-formatted :
      (ip_index : ℕ) (files : Files) (i : Loaded) (t : Dtree)
      → do_mkcfs o.env init_max bytspersec (tree_of ip_index new_buffer i) ≡ done tt t
      → set_up o ip_index new_buffer true i true files
        ≡ done (some (record { tree = t; in_buf = i.buf; gap = o.env.junk })) files
  unfolding set_up
  set_up-formatted ip_index files i t made = rw (set_up, made) refl

  open_disk-open_in :
      (ip_index : ℕ) (dt_name in_name : List ℕ) (files : Files)
      → load_file o dt_name files ≡ done none files
      → open_disk o ip_index dt_name in_name files
        ≡ open_in o ip_index in_name new_buffer true files
  unfolding open_disk
  open_disk-open_in ip_index dt_name in_name files first =
      rw (open_disk, granted 102 56, first, or_new-none 103) refl

  -- Where the image of the tree is missing or `read` reports an error at its start, `open_disk`
  -- returns a disk all the same, whose tree is valid and has nothing but the directory / of the root:
  -- it has one sector, no entries but its own two and the initial mode, and all other sectors are free.
  -- Memory is granted, and the loading of the other image ends, well or not.
  pub open_disk-IsFreshTree :
      (ip_index : ℕ) (dt_name in_name : List ℕ) (files : Files) (i : Option Loaded)
      → IsUnreadable o dt_name files
      → load_file o in_name files ≡ done i files
      → (d : Disk) × (open_disk o ip_index dt_name in_name files ≡ done (some d) files)
        × IsFreshTree o d.tree
  open_disk-IsFreshTree ip_index dt_name in_name files i lost second =
      let (t, made, valid, _, root, uid, flags, blocks, empty, free) =
        do_mkcfs-IsValid o.env (tree_of ip_index new_buffer (in_buffer i))
          (tree_of-size ip_index (in_buffer i)) (granted 2 101) in
      (
        record { tree = t; in_buf = (in_buffer i).buf; gap = o.env.junk },
        open_disk-open_in ip_index dt_name in_name files (load_file-unreadable dt_name files lost)
            ∙ (open_in-loaded ip_index in_name files i second
                ∙ set_up-formatted ip_index files (in_buffer i) t made),
        record {
          valid = valid;
          root = root;
          uid = uid;
          flags = flags;
          blocks = blocks;
          empty = empty;
          free = free;
        },
      )
