-- ===== src/Cfs/Tests/Operations.antt =====
-- The theorems about the directories, the permissions and the ranges of c_node/fs/cfs.c at the small
-- disk.
use sbpfs.Common.{
  ◌≤◌, ◌/◌, none, ℕ, ◌+◌, ◌-◌, ◌*◌, ◌<◌, ◌≡◌, ◌≢◌, ◌⊎◌, refl, arith, true, false, not,
  if◌then◌else◌, some, [], ◌∷◌, codes,
}
use sbpfs.Common.Mem.{Mem, u32_mod}
use sbpfs.Cfs.Query.Owners.{c_chown-refused}
use sbpfs.Common.Run.{stop, done, pos}
use sbpfs.Common.Quiet.{IsQuiet}
use sbpfs.Cfs.Dir.{find_entry_by_name, entry_at, is_dir_empty}
use sbpfs.Cfs.Dir.Find.{named, IsFirstNamed, find_entry_by_name-first}
use sbpfs.Cfs.Query.{c_getblocknum, c_getblocks, c_stat, c_opendir, c_readdir, c_chmod, c_chown}
use sbpfs.Cfs.Query.Frame.{queries-IsQuiet}
use sbpfs.Cfs.Query.Modes.{c_chmod-flags}
use sbpfs.Cfs.Blocks.{c_read, touched}
use sbpfs.Cfs.State.{
  FileEntry, sector, freesec, Dtree, init_max, initmode, s_dir, bytspersec, blocksize, read_meta,
}
use sbpfs.Cfs.Meta
use sbpfs.Cfs.Perm.{denied, own_check, op_r, op_w}
use sbpfs.Cfs.Perm.Bits.{has_bit, denied-has_bit}
use sbpfs.Cfs.Fat.Valid.{IsValid}
use sbpfs.Cfs.Fat.Chain.{IsChain}
use sbpfs.Cfs.Init.{do_mkcfs, new_dir}
use sbpfs.Cfs.Init.Mkcfs.{do_mkcfs-IsValid}
use sbpfs.Cfs.Path.{c_lookup, get_filename_from_path}
use sbpfs.Cfs.Path.Split.{get_filename_from_path-slash}
use sbpfs.Cfs.Create.{c_open}
use sbpfs.Cfs.Create.Flags.{c_open-ignores_flags}
use sbpfs.Cfs.Blocks.{sent_blocks}
use sbpfs.Cfs.Blocks.Sums.{total, sent_blocks-wraps}
use sbpfs.Cfs.Tests.{host, disk, buffer}

do_mkcfs-IsValid_example :
    (dt' : Dtree) × (do_mkcfs host init_max bytspersec disk ≡ done tt dt')
    × IsValid dt'
    × IsChain dt'.fat dt'.sb.fat_num 1 []
    × (c_lookup host (b'/' ∷ []) dt' ≡ done (record { name = 0; fb = 1; type = s_dir }) dt')
    × (Meta.uid (read_meta dt' 1) 0 ≡ 0)
    × (Meta.flags (read_meta dt' 1) 0 ≡ initmode)
    × (Meta.blocks (read_meta dt' 1) 0 ≡ 1)
    × (is_dir_empty (read_meta dt' 1) ≡ true)
    × ((a : ℕ) → 2 ≤ a → dt'.fat a ≡ freesec)
do_mkcfs-IsValid_example = do_mkcfs-IsValid host disk refl refl

-- the meta data of a file that user 1000 owns and everybody may read
abbrev meta_data : Mem
meta_data = Meta.set_flags (Meta.set_uid (λ _. 0) 0 1000) 0 initmode

flags_small : Meta.flags meta_data 0 < 256
unfolding Meta.flags Meta.set_flags
flags_small = omega arith

denied-has_bit_example :
    (denied 1001 meta_data op_r
      ≡ not (
          has_bit
            (Meta.flags meta_data 0)
            (if own_check 1001 (Meta.uid meta_data 0) then 3 else 1)))
    × (denied 1001 meta_data op_w
        ≡ not (
            has_bit
              (Meta.flags meta_data 0)
              (if own_check 1001 (Meta.uid meta_data 0) then 2 else 0)))
denied-has_bit_example = denied-has_bit 1001 meta_data flags_small

c_open-ignores_flags_example :
    c_open host (codes "/a") 1 14 1000 ≡ c_open host (codes "/a") 8 14 1000
c_open-ignores_flags_example =
    c_open-ignores_flags host (codes "/a") 1 8 14 1000 (omega arith) (omega arith)

get_filename_from_path-slash_example :
    (get_filename_from_path (b'/' ∷ b'u' ∷ b'/' ∷ b'a' ∷ b'b' ∷ [])
      ≡ some (b'/' ∷ b'u' ∷ [], b'a' ∷ b'b' ∷ []))
    × (get_filename_from_path (b'/' ∷ b'u' ∷ b'/' ∷ b'a' ∷ b'b' ∷ b'/' ∷ [])
        ≡ some (b'/' ∷ b'u' ∷ [], b'a' ∷ b'b' ∷ []))
get_filename_from_path-slash_example =
    get_filename_from_path-slash (b'/' ∷ b'u' ∷ []) b'a' (b'b' ∷ [])
      (λ h. absurd (omega arith), (λ h. absurd (omega arith), tt))

sent_blocks-wraps_example :
    total (sent_blocks (touched 20_000_000 20_000_000) 20_000_000 20_000_000 buffer 96)
    ≡ 20_000_000 + (u32_mod - 20_000_000 / blocksize * blocksize)
sent_blocks-wraps_example =
    sent_blocks-wraps 20_000_000 20_000_000 buffer 96 (omega arith) (omega arith) (omega arith)
      (omega arith) (omega arith)

-- the directory that a fresh file system starts with
abbrev root_buffer : Mem
root_buffer = new_dir host 0 1 1 1

root_buffer-strbase : Meta.strbase root_buffer 0 ≡ 16 * 2
unfolding new_dir Meta.strbase
root_buffer-strbase = refl

find_entry_by_name-first_example :
    ((r : ℕ) × (find_entry_by_name root_buffer (codes "..") ≡ some (some (64 + 16 * r)))
      × IsFirstNamed root_buffer (codes "..") 0 2 r)
    ⊎ (find_entry_by_name root_buffer (codes "..") ≡ some none)
      × ((j : ℕ) → j < 2 → named root_buffer (codes "..") j ≡ false)
find_entry_by_name-first_example =
    find_entry_by_name-first 2 root_buffer (codes "..") root_buffer-strbase

find_parent : find_entry_by_name root_buffer (codes "..") ≡ some (some 80)
unfolding find_entry_by_name new_dir
find_parent = refl

queries-IsQuiet_example :
    IsQuiet (c_lookup host (codes "/a"))
    × IsQuiet (c_getblocknum host (codes "/a"))
    × IsQuiet (c_getblocks host (codes "/a"))
    × IsQuiet (c_stat host 1000 (codes "/a"))
    × IsQuiet (c_opendir host 1000 (codes "/a"))
    × IsQuiet (c_readdir host 2 0)
    × IsQuiet (c_read host 2 0 512)
queries-IsQuiet_example = queries-IsQuiet host (codes "/a") 1000 2 0 512

-- the entry at the start of the data area
abbrev first_entry : FileEntry
first_entry = entry_at disk.area 0

root_found : c_lookup host (b'/' ∷ []) disk ≡ done first_entry disk
unfolding c_lookup
root_found = refl

root_owns : own_check 0 (Meta.uid (read_meta disk first_entry.fb) 0) ≡ true
unfolding own_check
root_owns = refl

first_flags : Meta.flags (read_meta disk first_entry.fb) 0 < 256
unfolding Meta.flags read_meta
first_flags = omega arith

c_chmod-flags_example :
    (dt' : Dtree) × (c_chmod host (b'/' ∷ []) 9 0 disk ≡ done (pos 0) dt')
    × (dt' ≡ record disk { area = dt'.area })
    × (dt'.area (sector disk first_entry.fb + 60)
        ≡ Meta.flags (read_meta disk first_entry.fb) 0 / 16 * 16 + 9)
    × ((a : ℕ) → a ≢ sector disk first_entry.fb + 60 → dt'.area a ≡ disk.area a)
c_chmod-flags_example =
    c_chmod-flags host (b'/' ∷ []) 9 0 disk first_entry root_found root_owns first_flags
      (omega arith)

-- a disk whose file at sector 2 has 40 MB
abbrev long_disk : Dtree
long_disk = record disk { area = Meta.set_flen (λ _. 0) 1024 40_000_000 }

root_uid : Meta.uid (read_meta disk first_entry.fb) 0 ≢ 1001
unfolding Meta.uid read_meta
root_uid h = absurd (omega arith)

c_chown-refused_example : c_chown host (b'/' ∷ []) 1001 1000 disk ≡ stop (pos 4) disk
c_chown-refused_example =
    c_chown-refused host (b'/' ∷ []) 1001 1000 disk first_entry root_found
      (λ h. absurd (omega arith)) root_uid
