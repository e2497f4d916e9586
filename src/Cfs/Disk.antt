-- ===== src/Cfs/Disk.antt =====
-- The images of a directory tree in files: `open_disk`, `save_disk`, `load_file` and `save_file` of
-- c_node/fs/cfs.c. Memory that is given back is not followed.
pub mod Layout
pub mod Load
pub mod Pointers
pub mod RoundTrip
pub mod Fresh
pub mod Durable
use sbpfs.Common.{
  ℕ, zero, suc, ◌+◌, ◌-◌, ◌*◌, ◌%◌, ◌==◌, ltb, Bool, true, false, not, if◌then◌else◌, Option, none,
  some, List, [], ◌∷◌, str_eq,
}
use sbpfs.Common.Mem.{Mem, memcpy, u32_mod}
use sbpfs.Common.Run.{
  ℤ, pos, negsuc, minus, Run, Cmd, done, stop, endless, pure, return_code, return_if, ◌>>=◌, ◌>>◌,
  get, put_state,
}
use sbpfs.Cfs.State.{Dtree, Env, init_max, bytspersec}
use sbpfs.Cfs.Init.{do_mkcfs}
use sbpfs.Cfs.Disk.Layout.{Image, sb_of, fat_of, dt_bytes}

-- What the operating system answers: whether a file can be opened for writing, the bytes that `read`
-- gives of a file from an offset when so many are asked for, and that `write` takes. A negative number
-- is an error.
pub record Os : Type 0 where
  pub env : Env
  pub opens : List ℕ → Bool
  pub reads : Image → ℕ → ℕ → ℤ
  pub writes : List ℕ → ℕ → ℤ

abbrev pub Files : Type 0
Files = List ℕ → Option Image

-- a buffer, the bytes that are used, and the bytes that are granted
pub record Loaded : Type 0 where
  pub size : ℕ
  pub max : ℕ
  pub buf : Mem

-- A `dtree_t`, the buffer `in_buf`, and what stands in the first sector of `dt_buf` behind the super
-- block.
pub record Disk : Type 0 where
  pub tree : Dtree
  pub in_buf : Mem
  pub gap : Mem

-- A round of the loop of `load_file`: the file is read, the error exit, or a larger buffer.
pub data Reading : Type 0 where
  whole broken : Reading
  more : Loaded → Reading

-- `buf = realloc(buf, *max *= 2)`, where the buffer is full
unfoldable pub grow : Os → Loaded → Reading
grow o r =
    let max' = r.max * 2 % u32_mod in
    if r.size == r.max
    then (if o.env.grants 101 max'
        then more (record {
          size = r.size;
          max = max';
          buf = λ a. if ltb a r.max then r.buf a else o.env.junk a;
        })
        else broken)
    else more r

unfoldable pub one_read : Os → Image → Loaded → Reading
unfolding grow memcpy
one_read o f r = elim (o.reads f r.size (r.max - r.size)) [
  | pos n ↦
      if n == 0
      then whole
      else grow o (record {
        size = (r.size + n) % u32_mod;
        max = r.max;
        buf = memcpy r.buf r.size f.bytes r.size n;
      })
  | negsuc n ↦ broken
]

abbrev pub no_end : {A : Type 0} → Cmd Files A
no_end s = endless

unfoldable pub load_loop : ℕ → Os → Image → Loaded → Cmd Files (Option Loaded)
unfolding one_read
load_loop zero o f r = no_end
load_loop (suc k) o f r = elim (one_read o f r) [
  | whole ↦ pure (some r)
  | broken ↦ pure none
  | more r' ↦ load_loop k o f r'
]

-- `none` for NULL. The loop gets a round for each byte of the file, and two more.
unfoldable pub load_file : Os → List ℕ → Cmd Files (Option Loaded)
unfolding load_loop
load_file o filename = do
  files ← get
  elim (files filename) [
    | none ↦ pure none
    | some f ↦
        if o.env.grants 100 init_max
        then load_loop (suc (f.size + 1)) o f
            (record { size = 0; max = init_max; buf = o.env.junk })
        else pure none
  ]

abbrev pub old_image : Option Image → Image
old_image none = record { size = 0; bytes = λ _. 0 }
old_image (some f) = f

-- A file after a `write` of `n` bytes at its start: it is not cut off.
unfoldable pub overwritten : Image → Mem → ℕ → Image
unfolding memcpy
overwritten f buf n = record {
  size = if ltb f.size n then n else f.size;
  bytes = memcpy f.bytes 0 buf 0 n;
}

abbrev pub set_image : List ℕ → Image → Files → Files
set_image name f files other = if str_eq name other then some f else files other

unfoldable pub save_file : Os → Mem → ℕ → List ℕ → Cmd Files (Unit {0})
unfolding overwritten
save_file o buf size filename = do
  return_if (not (o.opens filename)) (minus 1)
  files ← get
  let old = old_image (files filename)
  elim (o.writes filename size) [
    | pos n ↦ (do
      put_state (set_image filename (overwritten old buf n) files)
      return_if (not (n == size)) (minus 1))
    | negsuc n ↦ (do put_state (set_image filename old files); return_code (minus 1))
  ]

-- The buffer that is loaded, or else a new one of 32 KB and that it is new.
unfoldable pub or_new : Os → ℕ → Option Loaded → Option (Loaded × Bool)
or_new o place (some r) = some (r, false)
or_new o place none =
    if o.env.grants place init_max
    then some (record { size = init_max; max = init_max; buf = o.env.junk }, true)
    else none

-- The pointers into the buffers. The sector size is not taken from the image.
unfoldable pub tree_of : ℕ → Loaded → Loaded → Dtree
unfolding sb_of fat_of
tree_of ip_index d i =
    let sb = sb_of d.buf bytspersec in
    record {
      sb = sb;
      fat = fat_of d.buf sb.fat_sec_num;
      area = λ a. d.buf (bytspersec + (bytspersec * sb.fat_sec_num % u32_mod + a));
      dt_size = d.size;
      in_size = i.size;
      dt_max = d.max;
      in_max = i.max;
      ip_index = ip_index;
    }

-- `do_mkcfs` returns nothing, so that only its state is used.
abbrev formatted :
    {A : Type 0} → Run Dtree A → (Dtree → Cmd Files (Option Disk)) → Cmd Files (Option Disk)
formatted (done a t) k = k t
formatted (stop c t) k = k t
formatted endless k = no_end

abbrev a_disk : Mem → Mem → Dtree → Cmd Files (Option Disk)
a_disk in_buf gap tree = pure (some (record { tree = tree; in_buf = in_buf; gap = gap }))

abbrev with_buffer :
    Option (Loaded × Bool) → (Loaded → Bool → Cmd Files (Option Disk)) → Cmd Files (Option Disk)
with_buffer none k = pure none
with_buffer (some (r, is_new)) k = k r is_new

-- Both buffers are there: the pointers are set, and a new tree is made.
unfoldable pub set_up : Os → ℕ → Loaded → Bool → Loaded → Bool → Cmd Files (Option Disk)
unfolding tree_of do_mkcfs
set_up o ip_index d needmkfs i _ =
    let t = tree_of ip_index d i in
    if needmkfs
    then formatted (do_mkcfs o.env d.max bytspersec t) (a_disk i.buf d.buf)
    else a_disk i.buf d.buf t

-- The other image, where the buffer for the tree is there.
unfoldable pub open_in : Os → ℕ → List ℕ → Loaded → Bool → Cmd Files (Option Disk)
unfolding load_file or_new set_up
open_in o ip_index in_name d needmkfs = do
  in_loaded ← load_file o in_name
  with_buffer (or_new o 104 in_loaded) (set_up o ip_index d needmkfs)

-- `none` for NULL. `ip_index` is what the counter of `gen_ip_index` stands at.
unfoldable pub open_disk : Os → ℕ → List ℕ → List ℕ → Cmd Files (Option Disk)
unfolding load_file or_new open_in
open_disk o ip_index dt_name in_name =
    if o.env.grants 102 56
    then (do
      dt_loaded ← load_file o dt_name
      with_buffer (or_new o 103 dt_loaded) (open_in o ip_index in_name))
    else pure none

-- `none` for the pointer NULL
unfoldable pub save_disk : Os → Option Disk → List ℕ → List ℕ → Cmd Files (Unit {0})
unfolding save_file dt_bytes
save_disk o none dt_name in_name = return_code (minus 1)
save_disk o (some d) dt_name in_name = do
  save_file o (dt_bytes d.tree d.gap) d.tree.dt_size dt_name
  save_file o d.in_buf d.tree.in_size in_name
