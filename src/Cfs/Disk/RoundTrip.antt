-- ===== src/Cfs/Disk/RoundTrip.antt =====
-- `save_disk` and then `open_disk` of c_node/fs/cfs.c.
use sbpfs.Common.{
  ℕ, ◌*◌, ◌^◌, ◌≤◌, ◌<◌, ◌≡◌, refl, sym, ap, ◌∙◌, arith, true, false, ==-refl, Bool-cases, inl, inr,
  some, List, str_eq,
}
use sbpfs.Common.Mem.{Mem, memcpy}
use sbpfs.Common.Run.{pos, done}
use sbpfs.Node.Store.{str_eq_refl, str_eq→eq}
use sbpfs.Cfs.Fat.Valid.{IsValid}
use sbpfs.Cfs.Disk.Layout.{Image, dt_bytes}
use sbpfs.Cfs.Disk.Load.{IsReading, load_file-whole}
use sbpfs.Cfs.Disk.Pointers.{IsTyped, sb_of-dt_bytes, fat_of-dt_bytes, area-dt_bytes}
use sbpfs.Cfs.Disk.{
  Os, Files, Loaded, Disk, old_image, overwritten, set_image, load_file, save_file, tree_of, set_up,
  open_in, open_disk, save_disk,
}

-- Files can be written, and `write` takes all of a buffer of 1 GB at most.
pub record IsWriting (o : Os) : Type 0 where
  pub opens : (name : List ℕ) → o.opens name ≡ true
  pub writes : (name : List ℕ) (size : ℕ) → size ≤ 2 ^ 30 → o.writes name size ≡ pos size

module _ (o : Os) (ok : IsWriting o) where
  save_file-overwritten :
      (buf : Mem) (size : ℕ) (name : List ℕ) (files : Files)
      → size ≤ 2 ^ 30
      → save_file o buf size name files
        ≡ done tt (set_image name (overwritten (old_image (files name)) buf size) files)
  unfolding save_file
  save_file-overwritten buf size name files h =
      rw (ok.opens name, ok.writes name size h, ==-refl size) refl

-- A file that is no longer than what is written over it.
overwritten-bytes :
    (f : Image) (buf : Mem) (size a : ℕ) → a < size → (overwritten f buf size).bytes a ≡ buf a
unfolding overwritten memcpy
overwritten-bytes f buf size a h = ground arith

overwritten-size :
    (f : Image) (buf : Mem) (size : ℕ) → f.size ≤ size → (overwritten f buf size).size ≡ size
unfolding overwritten
overwritten-size f buf size h = ground arith

-- A file after `save_file`, and what `load_file` makes of it.
abbrev saved : Files → List ℕ → Mem → ℕ → Image
saved files name buf size = overwritten (old_image (files name)) buf size

-- A disk that is opened again: the tree is valid, and it has the super block, the table and the data
-- of the other, and as many bytes; `in_buf` has the same bytes.
pub record IsReopened (d d' : Disk) : Type 0 where
  pub valid : IsValid d'.tree
  pub sb : d'.tree.sb ≡ d.tree.sb
  pub fat : (i : ℕ) → d'.tree.fat i ≡ d.tree.fat i
  pub area : (a : ℕ) → a < 512 * d.tree.sb.fat_num → d'.tree.area a ≡ d.tree.area a
  pub dt_size : d'.tree.dt_size ≡ d.tree.dt_size
  pub in_size : d'.tree.in_size ≡ d.tree.in_size
  pub in_buf : (a : ℕ) → a < d.tree.in_size → d'.in_buf a ≡ d.in_buf a

module _ (d : Disk) (v : IsValid d.tree) (ty : IsTyped d.tree) (ip_index : ℕ) (r i : Loaded)
    (r_size : r.size ≡ d.tree.dt_size) (i_size : i.size ≡ d.tree.in_size)
    (r_same : (a : ℕ) → a < d.tree.dt_size → r.buf a ≡ dt_bytes d.tree d.gap a)
    (i_same : (a : ℕ) → a < d.tree.in_size → i.buf a ≡ d.in_buf a) where
  abbrev reopened : Disk
  reopened = record { tree = tree_of ip_index r i; in_buf = i.buf; gap = r.buf }

  reopened-sb : reopened.tree.sb ≡ d.tree.sb
  unfolding tree_of
  reopened-sb = sb_of-dt_bytes d.tree v ty d.gap r.buf r_same

  reopened-fat : (j : ℕ) → reopened.tree.fat j ≡ d.tree.fat j
  unfolding tree_of
  reopened-fat j =
      rw (ap (λ s. s.fat_sec_num) reopened-sb) (fat_of-dt_bytes d.tree v ty d.gap r.buf r_same j)

  reopened-area : (a : ℕ) → a < 512 * d.tree.sb.fat_num → reopened.tree.area a ≡ d.tree.area a
  unfolding tree_of
  reopened-area a h =
      rw (ap (λ s. s.fat_sec_num) reopened-sb) (area-dt_bytes d.tree v ty d.gap r.buf r_same a h)

  reopened-dt_size : reopened.tree.dt_size ≡ d.tree.dt_size
  unfolding tree_of
  reopened-dt_size = r_size

  reopened-in_size : reopened.tree.in_size ≡ d.tree.in_size
  unfolding tree_of
  reopened-in_size = i_size

  reopened-IsReopened : IsReopened d reopened
  reopened-IsReopened =
      let b = ap (λ s. s.byts_per_sec) reopened-sb in
      let t = ap (λ s. s.tot_sec_num) reopened-sb in
      let fs = ap (λ s. s.fat_sec_num) reopened-sb in
      let n = ap (λ s. s.fat_num) reopened-sb in
      record {
        valid = record {
          byts = b ∙ v.byts;
          whole = omega (arith, t, reopened-dt_size, v.whole);
          least = omega (arith, t, v.least);
          most = omega (arith, t, v.most);
          fat_secs = omega (arith, t, fs, v.fat_secs);
          data_secs = omega (arith, t, fs, n, v.data_secs);
          spare = λ j h. reopened-fat j ∙ v.spare j (omega (arith, n, h));
        };
        sb = reopened-sb;
        fat = reopened-fat;
        area = reopened-area;
        dt_size = reopened-dt_size;
        in_size = reopened-in_size;
        in_buf = i_same;
      }

-- Two images that are there and can be read.
open_disk-loaded :
    (o : Os) (ip_index : ℕ) (dt_name in_name : List ℕ) (files : Files) (r i : Loaded)
    → ((place n : ℕ) → o.env.grants place n ≡ true)
    → load_file o dt_name files ≡ done (some r) files
    → load_file o in_name files ≡ done (some i) files
    → open_disk o ip_index dt_name in_name files
      ≡ done (some (record { tree = tree_of ip_index r i; in_buf = i.buf; gap = r.buf })) files
unfolding open_disk open_in set_up
open_disk-loaded o ip_index dt_name in_name files r i granted first second =
    rw (open_disk, granted 102 56, first, open_in, second, set_up) refl

str_eq_flip : (a b : List ℕ) → str_eq a b ≡ false → str_eq b a ≡ false
str_eq_flip a b h = elim (Bool-cases (str_eq b a)) [
  | inl same ↦ absurd (cc (h, str_eq_refl b, ap (λ c. str_eq c b) (sym (str_eq→eq b a same))))
  | inr other ↦ other
]

module _ (o : Os) (ok : IsWriting o) (reads : (f : Image) → f.size ≤ 2 ^ 30 → IsReading o f)
    (granted : (place n : ℕ) → o.env.grants place n ≡ true) where
  save_disk-saved :
      (d : Disk) (dt_name in_name : List ℕ) (files : Files)
      → str_eq dt_name in_name ≡ false
      → d.tree.dt_size ≤ 2 ^ 30
      → d.tree.in_size ≤ 2 ^ 30
      → save_disk o (some d) dt_name in_name files
        ≡ done tt (
            set_image in_name (saved files in_name d.in_buf d.tree.in_size) (
              set_image dt_name (saved files dt_name (dt_bytes d.tree d.gap) d.tree.dt_size) files))
  unfolding save_disk
  save_disk-saved d dt_name in_name files differ small small' =
      rw
        (
          save_file-overwritten o ok (dt_bytes d.tree d.gap) d.tree.dt_size dt_name files small,
          save_file-overwritten o ok d.in_buf d.tree.in_size in_name
              (set_image dt_name (saved files dt_name (dt_bytes d.tree d.gap) d.tree.dt_size) files)
              small',
          differ,
        )
        refl

  -- What is saved over files that are not longer is loaded again.
  load_file-saved :
      (buf : Mem) (size : ℕ) (old : Image) (name : List ℕ) (files : Files)
      → old.size ≤ size
      → size ≤ 2 ^ 30
      → files name ≡ some (overwritten old buf size)
      → (r : Loaded) × (load_file o name files ≡ done (some r) files)
        × (r.size ≡ size)
        × ((a : ℕ) → a < size → r.buf a ≡ buf a)
  load_file-saved buf size old name files shorter small there =
      let whole = overwritten-size old buf size shorter in
      let (r, run, size', part) =
        load_file-whole o (overwritten old buf size)
          (reads (overwritten old buf size) (omega (arith, whole))) name files there in
      (
        r,
        run,
        size' ∙ whole,
        λ a h. part.same a (omega (arith, size', whole)) ∙ overwritten-bytes old buf size a h,
      )

  -- `save_disk` of a valid disk returns 0, and `open_disk` of the two files then opens a valid disk
  -- with the same super block, table, data and `in_buf`. The names differ, the buffers have 1 GB at
  -- most, and the files that are written over are no longer than the buffers.
  pub open_disk-save_disk :
      (d : Disk) (ip_index : ℕ) (dt_name in_name : List ℕ) (files : Files)
      → IsValid d.tree
      → IsTyped d.tree
      → str_eq dt_name in_name ≡ false
      → d.tree.dt_size ≤ 2 ^ 30
      → d.tree.in_size ≤ 2 ^ 30
      → (old_image (files dt_name)).size ≤ d.tree.dt_size
      → (old_image (files in_name)).size ≤ d.tree.in_size
      → (files' : Files) × (d' : Disk) × (save_disk o (some d) dt_name in_name files
          ≡ done tt files')
        × (open_disk o ip_index dt_name in_name files' ≡ done (some d') files')
        × IsReopened d d'
  open_disk-save_disk d ip_index dt_name in_name files v ty differ small small' short short' =
      let dt_image = saved files dt_name (dt_bytes d.tree d.gap) d.tree.dt_size in
      let in_image = saved files in_name d.in_buf d.tree.in_size in
      let files' = set_image in_name in_image (set_image dt_name dt_image files) in
      let (r, run, size, same) =
        load_file-saved (dt_bytes d.tree d.gap) d.tree.dt_size (old_image (files dt_name)) dt_name
          files' short small (rw (str_eq_flip dt_name in_name differ, str_eq_refl dt_name) refl) in
      let (i, run', size', same') =
        load_file-saved d.in_buf d.tree.in_size (old_image (files in_name)) in_name files' short'
          small' (rw (str_eq_refl in_name) refl) in
      (
        files',
        record { tree = tree_of ip_index r i; in_buf = i.buf; gap = r.buf },
        save_disk-saved d dt_name in_name files differ small small',
        open_disk-loaded o ip_index dt_name in_name files' r i granted run run',
        reopened-IsReopened d v ty ip_index r i size size' same same',
      )
