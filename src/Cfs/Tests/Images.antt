-- ===== src/Cfs/Tests/Images.antt =====
-- Images of a concrete disk, written and read in parts (c_node/fs/cfs.c).
use sbpfs.Common.{
  ℕ, ◌*◌, ◌<◌, ◌-◌, ◌^◌, ◌≤◌, ◌≡◌, refl, ap, arith, true, ltb, if◌then◌else◌, Option, none, some,
  [], ◌∷◌, codes,
}
use sbpfs.Common.Mem.{Mem}
use sbpfs.Common.Run.{pos, done}
use sbpfs.Cfs.State.{Dtree}
use sbpfs.Cfs.Meta
use sbpfs.Cfs.Fat.{
  do_writefile, do_readfile, write_loop, alloc_fat, find_free, next_free_fat, reset_fat,
  write_sector, extend, extended,
}
use sbpfs.Cfs.Disk.Durable.{do_writefile-IsTyped, do_readfile-open_disk}
use sbpfs.Cfs.Tests.{host, disk, disk-IsValid, disk-IsChain, buffer, buffer-blocks}
use sbpfs.Cfs.Disk.Layout.{Image}
use sbpfs.Cfs.Disk.Load.{IsReading}
use sbpfs.Cfs.Disk.Pointers.{IsTyped}
use sbpfs.Cfs.Disk.RoundTrip.{IsWriting, IsReopened, open_disk-save_disk}
use sbpfs.Cfs.Disk.Fresh.{missing, IsFreshTree, open_disk-IsFreshTree}
use sbpfs.Cfs.Disk.{Os, Files, Disk, load_file, save_disk, open_disk}

-- as much as `read` gives of a file: 1000 bytes at most
abbrev parts_of : Image → ℕ → ℕ → ℕ
parts_of f from asked =
    let left = f.size - from in
    let part = if ltb left asked then left else asked in if ltb part 1000 then part else 1000

abbrev os : Os
os = record {
  env = host;
  opens = λ _. true;
  reads = λ f from asked. pos (parts_of f from asked);
  writes = λ _ size. pos size;
}

os-IsWriting : IsWriting os
os-IsWriting = record { opens = λ name. refl; writes = λ name size h. refl }

os-IsReading : (f : Image) → f.size ≤ 2 ^ 30 → IsReading os f
os-IsReading f small = record {
  small = omega (arith, small);
  granted = λ place n. refl;
  gives = λ from asked h some_bytes.
      (parts_of f from asked, ground arith, ground arith, ground arith, refl);
  ends = λ asked. ap pos (ground arith);
}

disk-IsTyped : IsTyped disk
disk-IsTyped = record { name = refl; next_block = omega arith; entries = λ i. ground arith }

abbrev a_disk : Disk
a_disk = record { tree = disk; in_buf = λ a. a; gap = λ _. 0 }

abbrev no_files : Files
no_files _ = none

open_disk-save_disk_example :
    (files' : Files) × (d' : Disk) × (save_disk os (some a_disk) (codes "dt") (codes "in") no_files
      ≡ done tt files')
    × (open_disk os 0 (codes "dt") (codes "in") files' ≡ done (some d') files')
    × IsReopened a_disk d'
open_disk-save_disk_example =
    open_disk-save_disk os os-IsWriting os-IsReading (λ place n. refl) a_disk 0 (codes "dt")
      (codes "in") no_files disk-IsValid disk-IsTyped refl (omega arith) (omega arith) (omega arith)
      (omega arith)

no_image : load_file os (codes "in") no_files ≡ done none no_files
unfolding load_file
no_image = refl

open_disk-IsFreshTree_example :
    (d : Disk) × (open_disk os 0 (codes "dt") (codes "in") no_files ≡ done (some d) no_files)
    × IsFreshTree os d.tree
open_disk-IsFreshTree_example =
    open_disk-IsFreshTree os (λ place n. refl) 0 (codes "dt") (codes "in") no_files none
      (missing refl) no_image

abbrev or_disk : Option Dtree → Dtree
or_disk none = disk
or_disk (some dt) = dt

abbrev written : Dtree
unfolding do_writefile write_loop alloc_fat find_free next_free_fat reset_fat write_sector extend
    extended Meta.blocks Meta.set_blocks
written = or_disk (do_writefile host 2 buffer 1200 disk)

written_run : do_writefile host 2 buffer 1200 disk ≡ some written
unfolding do_writefile write_loop alloc_fat find_free next_free_fat reset_fat write_sector extend
    extended Meta.blocks Meta.set_blocks
written_run = refl

do_readfile-open_disk_example :
    (files' : Files) × (d' : Disk) × (out : Mem) × (save_disk os
        (some (record { tree = written; in_buf = λ a. a; gap = λ _. 0 }))
        (codes "dt")
        (codes "in")
        no_files
      ≡ done tt files')
    × (open_disk os 0 (codes "dt") (codes "in") files' ≡ done (some d') files')
    × (do_readfile d'.tree 2 (λ _. 0) ≡ some out)
    × ((a : ℕ) → a < 1200 → a < 512 * 3 → out a ≡ buffer a)
unfolding written
do_readfile-open_disk_example =
    do_readfile-open_disk os os-IsWriting os-IsReading (λ place n. refl) disk 2 (3 ∷ []) buffer 1200
      2 disk-IsValid disk-IsTyped disk-IsChain buffer-blocks (omega arith) (omega arith)
      (omega arith) written (λ a. a) (λ _. 0) (λ _. 0) 0 (codes "dt") (codes "in") no_files
      written_run refl (omega arith) (omega arith) (omega arith) (omega arith)

do_writefile-IsTyped_example :
    (dt' : Dtree) × (do_writefile host 2 buffer 1200 disk ≡ some dt') × IsTyped dt'
do_writefile-IsTyped_example =
    do_writefile-IsTyped host disk 2 (3 ∷ []) buffer 1200 2 (λ n. refl) disk-IsValid disk-IsTyped
      disk-IsChain buffer-blocks (omega arith) (omega arith) (omega arith)
