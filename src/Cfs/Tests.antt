-- ===== src/Cfs/Tests.antt =====
-- The theorems about c_node/fs/cfs.c at a small disk, whose sectors 2 and 3 and whose sector 5 are a
-- file each.
mod Operations
mod Images
use sbpfs.Common.{
  none, ℕ, ◌+◌, ◌-◌, ◌*◌, ◌/◌, ◌%◌, ◌≤◌, ◌<◌, ◌≡◌, ◌≢◌, ◌⊎◌, refl, arith, true, false, not, ◌==◌,
  if◌then◌else◌, some, List, [], ◌∷◌, codes,
}
use sbpfs.Common.Mem.{Mem, u32_mod}
use sbpfs.Common.Run.{ℤ, done, pos}
use sbpfs.Common.Quiet.{IsQuiet}
use sbpfs.Cfs.Dir.{find_entry_by_name, entry_at}
use sbpfs.Cfs.Dir.Find.{named, IsFirstNamed, find_entry_by_name-first}
use sbpfs.Cfs.Query.{c_getblocknum, c_getblocks, c_stat, c_opendir, c_readdir, c_chmod}
use sbpfs.Cfs.Query.Frame.{queries-IsQuiet}
use sbpfs.Cfs.Query.Modes.{c_chmod-flags}
use sbpfs.Cfs.Blocks.{c_read, clip}
use sbpfs.Cfs.State.{
  FileEntry, sector, Dtree, Env, freesec, endsec, no_fat, init_max, initmode, s_dir, bytspersec,
  blocksize, read_meta,
}
use sbpfs.Cfs.Meta
use sbpfs.Cfs.Perm.{denied, own_check, op_r, op_w}
use sbpfs.Cfs.Perm.Bits.{has_bit, denied-has_bit}
use sbpfs.Cfs.Fat.{next_free_fat, alloc_fat, reset_fat, write_loop, do_writefile, do_readfile}
use sbpfs.Cfs.Fat.Scan.{IsFirstFree, next_free_fat-first}
use sbpfs.Cfs.Fat.Valid.{IsValid, IsAllocated, Generous, alloc_fat-IsAllocated}
use sbpfs.Cfs.Fat.Chain.{IsChain, IsRead, has, reset_fat-chain, do_readfile-IsRead}
use sbpfs.Cfs.Fat.Write.{IsWritten, write_loop-IsWritten}
use sbpfs.Cfs.Fat.RoundTrip.{
  IsStored, do_writefile-IsStored, do_readfile-do_writefile, do_writefile-other,
}
use sbpfs.Cfs.Init.{do_mkcfs, new_dir}
use sbpfs.Cfs.Init.Mkcfs.{do_mkcfs-IsValid}
use sbpfs.Cfs.Path.{c_lookup, get_filename_from_path}
use sbpfs.Cfs.Path.Split.{get_filename_from_path-slash}
use sbpfs.Cfs.Query.{chmod_flags}
use sbpfs.Cfs.Query.Chmod.{chmod_flags_low}
use sbpfs.Cfs.Create.{c_open}
use sbpfs.Cfs.Create.Flags.{c_open-ignores_flags}
use sbpfs.Cfs.Blocks.{SendBlock, up_div, touched, sent_blocks, new_loop}
use sbpfs.Cfs.Blocks.Range.{touched-blocks}
use sbpfs.Cfs.Blocks.Sums.{total, sent_blocks-total, sent_blocks-wraps}
use sbpfs.Cfs.Blocks.Fresh.{numbers, block_nums_of}

abbrev pub host : Env
host = record { now = 1_300_000_000; grants = λ _ _. true; junk = λ a. a % 256 }

abbrev pub table : ℕ → ℕ
table i =
    if i == 2
    then 3
    else if i == 0
    then endsec
    else if i == 1
    then endsec
    else if i == 3
    then endsec
    else if i == 5
    then endsec
    else freesec

abbrev pub disk : Dtree
disk = record {
  sb = record {
    fstype = codes "cfs";
    byts_per_sec = 512;
    tot_sec_num = 64;
    fat_sec_num = 1;
    fat_num = 62;
    max_block_num = 7;
  };
  fat = table;
  area = λ a. a % 251;
  dt_size = 32_768;
  in_size = 0;
  dt_max = 32_768;
  in_max = 0;
  ip_index = 0;
}

-- a file of three sectors
abbrev pub buffer : Mem
buffer = Meta.set_blocks (λ a. a % 7) 0 3

pub buffer-blocks : Meta.blocks buffer 0 ≡ 3
unfolding Meta.blocks Meta.set_blocks
buffer-blocks = refl

pub disk-IsValid : IsValid disk
disk-IsValid = record {
  byts = refl;
  whole = refl;
  least = omega arith;
  most = omega arith;
  fat_secs = refl;
  data_secs = refl;
  spare = λ i h. ground arith;
}

pub disk-IsChain : IsChain disk.fat disk.sb.fat_num 2 (3 ∷ [])
disk-IsChain = (omega arith, refl, omega arith, (omega arith, refl))

disk-IsChain_other : IsChain disk.fat disk.sb.fat_num 5 []
disk-IsChain_other = (omega arith, refl)

host-Generous : Generous host
host-Generous n = refl

do_writefile-IsStored_example :
    (ts : List ℕ) × (dt' : Dtree) × (do_writefile host 2 buffer 1200 disk ≡ some dt')
    × IsStored disk 2 (3 ∷ []) 1200 2 buffer ts dt'
do_writefile-IsStored_example =
    do_writefile-IsStored host disk 2 (3 ∷ []) buffer 1200 2 host-Generous disk-IsValid disk-IsChain
      buffer-blocks (omega arith) (omega arith) (omega arith)

do_readfile-do_writefile_example :
    (dt' : Dtree) × (out : Mem) × (do_writefile host 2 buffer 1200 disk ≡ some dt')
    × (do_readfile dt' 2 (λ _. 0) ≡ some out)
    × ((a : ℕ) → a < 1200 → a < 512 * 3 → out a ≡ buffer a)
do_readfile-do_writefile_example =
    do_readfile-do_writefile host disk 2 (3 ∷ []) buffer 1200 2 host-Generous disk-IsValid
      disk-IsChain buffer-blocks (omega arith) (omega arith) (omega arith) (λ _. 0)

five_apart : (a : ℕ) → has a (5 ∷ []) ≡ true → has a (2 ∷ 3 ∷ []) ≡ false
five_apart a h = ground arith

do_writefile-other_example :
    (dt' : Dtree) × (out : Mem) × (out' : Mem) × (do_writefile host 2 buffer 1200 disk ≡ some dt')
    × IsChain dt'.fat dt'.sb.fat_num 5 []
    × (do_readfile disk 5 (λ _. 0) ≡ some out)
    × (do_readfile dt' 5 (λ _. 0) ≡ some out')
    × ((a : ℕ) → a < 512 * 1 → out' a ≡ out a)
do_writefile-other_example =
    do_writefile-other host disk 2 (3 ∷ []) buffer 1200 2 host-Generous disk-IsValid disk-IsChain
      buffer-blocks (omega arith) (omega arith) (omega arith) 5 [] (λ _. 0) disk-IsChain_other
      five_apart
