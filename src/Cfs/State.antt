-- ===== src/Cfs/State.antt =====
-- The state of the file system (c_node/fs/cfs.h): the super block, the FAT and the data area of a
-- `dtree_t`, and the layout of its structs, which have no padding: a `file_entry_t` has 16 bytes, a
-- `file_block_t` 32 and a `file_meta_t` 64.
use sbpfs.Common.{if◌then◌else◌, ℕ, ◌+◌, ◌*◌, ◌%◌, ◌/◌, ◌-◌, Bool, List}
use sbpfs.Common.Mem.{Mem, memcpy, u32_mod, u64_mod}
use sbpfs.Common.Run.{Cmd, stop, done, minus}

abbrev pub max_filename : ℕ
max_filename = 256

abbrev pub nr_copy : ℕ
nr_copy = 3

abbrev pub blocksize : ℕ
blocksize = 16_777_216

abbrev pub s_dir : ℕ
s_dir = 1

abbrev pub s_fil : ℕ
s_fil = 2

abbrev pub s_ird : ℕ
s_ird = 8

abbrev pub s_iwr : ℕ
s_iwr = 4

abbrev pub s_ord : ℕ
s_ord = 2

abbrev pub s_owr : ℕ
s_owr = 1

-- `S_IRW|S_ORW`
abbrev pub s_all : ℕ
s_all = 15

-- `S_IRW|S_ORD`
abbrev pub initmode : ℕ
initmode = 14

abbrev pub sbp_o_rdonly : ℕ
sbp_o_rdonly = 1

abbrev pub sbp_o_wronly : ℕ
sbp_o_wronly = 2

abbrev pub sbp_o_rdwr : ℕ
sbp_o_rdwr = 4

abbrev pub sbp_o_creat : ℕ
sbp_o_creat = 8

abbrev pub bytspersec : ℕ
bytspersec = 512

abbrev pub freesec : ℕ
freesec = 0

-- `~0`, compared with a `u32_t`
abbrev pub endsec : ℕ
endsec = 4_294_967_295

-- the `-1` of `next_free_fat`, as a `u32_t`
abbrev pub no_fat : ℕ
no_fat = 4_294_967_295

abbrev pub init_max : ℕ
init_max = 32_768

pub record Sb : Type 0 where
  pub fstype : List ℕ
  pub byts_per_sec : ℕ
  pub tot_sec_num : ℕ
  pub fat_sec_num : ℕ
  pub fat_num : ℕ
  pub max_block_num : ℕ

-- `fat` is what `fat_p` points at, by entries, and `area` what `data` points at, by bytes. `ip_index`
-- is the static counter of `gen_ip_index`.
pub record Dtree : Type 0 where
  pub sb : Sb
  pub fat : ℕ → ℕ
  pub area : Mem
  pub dt_size : ℕ
  pub in_size : ℕ
  pub dt_max : ℕ
  pub in_max : ℕ
  pub ip_index : ℕ

-- What the C library supplies: `time(NULL)`, whether the `malloc` at a place of the code grants a
-- size, and what a granted buffer holds before it is written.
pub record Env : Type 0 where
  pub now : ℕ
  pub grants : ℕ → ℕ → Bool
  pub junk : Mem

-- `u32_t` multiplication: the offset of a sector in a buffer
unfoldable pub sector : Dtree → ℕ → ℕ
sector dt n = n * dt.sb.byts_per_sec % u32_mod

-- `memcpy(&meta, dt->data + fb*bytsPerSec, sizeof(file_meta_t))`
unfoldable pub read_meta : Dtree → ℕ → Mem
unfolding sector memcpy
read_meta dt fb = memcpy (λ _. 0) 0 dt.area (sector dt fb) 64

-- the `malloc` of a C function, by its place in it: the function returns -9 where it fails
abbrev pub malloc : Env → ℕ → ℕ → Cmd Dtree Mem
malloc e place size s = if e.grants place size then done e.junk s else stop (minus 9) s

-- `u64_t` subtraction
unfoldable pub sub64 : ℕ → ℕ → ℕ
sub64 a b = (a + u64_mod - b % u64_mod) % u64_mod

-- `u64_t` addition
unfoldable pub add64 : ℕ → ℕ → ℕ
add64 a b = (a + b) % u64_mod

-- `(size + bytsPerSec - 1) / bytsPerSec`
unfoldable pub sectors_for : Dtree → ℕ → ℕ
sectors_for dt size = (size + dt.sb.byts_per_sec - 1) / dt.sb.byts_per_sec

-- A `file_entry_t` that a function copies out of a buffer.
pub record FileEntry : Type 0 where
  pub name : ℕ
  pub fb : ℕ
  pub type : ℕ
