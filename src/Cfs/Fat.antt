-- ===== src/Cfs/Fat.antt =====
-- The sector allocator and the sector chains of c_node/fs/cfs.c: `next_free_fat`, `reset_fat`,
-- `extend`, `do_writefile` and `do_readfile`.
pub mod Scan
pub mod Valid
pub mod Chain
pub mod Write
pub mod RoundTrip
pub mod Label
use sbpfs.Common.{
  ℕ, zero, suc, ◌+◌, ◌-◌, ◌*◌, ◌/◌, ◌%◌, Option, none, some, ltb, leb, ◌==◌, if◌then◌else◌,
}
use sbpfs.Common.Mem.{Mem, update, memcpy, u32_mod, u64_mod}
use sbpfs.Common.Run.{ℤ, pos, minus}
use sbpfs.Cfs.State.{Dtree, Env, sector, freesec, endsec, no_fat}
use sbpfs.Cfs.Meta

-- `for (i = base; i < fat_num; i++)`, with the rounds that are left
scan_fat : (ℕ → ℕ) → ℕ → ℕ → ℕ
scan_fat fat zero i = no_fat
scan_fat fat (suc k) i = let rest = scan_fat fat k (i + 1) in if fat i == freesec then i else rest

unfoldable pub next_free_fat : ℕ → (ℕ → ℕ) → ℕ → ℕ
unfolding scan_fat
next_free_fat base fat fat_num = scan_fat fat (fat_num - base) base

-- The loop of `reset_fat`, `none` where the rounds run out.
unfoldable pub reset_loop : ℕ → ℕ → (ℕ → ℕ) → Option (ℕ → ℕ)
reset_loop zero fat_num fat = none
reset_loop (suc k) fat_num fat =
    let rest = reset_loop k (fat fat_num) (update fat fat_num freesec) in
    if fat_num == endsec then some fat else rest

-- A chain that ends visits no sector twice, so it ends within one round more than there are sectors.
abbrev pub rounds : Dtree → ℕ
rounds dt = dt.sb.fat_num + 2

abbrev with_fat : Dtree → Option (ℕ → ℕ) → Option Dtree
with_fat dt none = none
with_fat dt (some fat) = some (record dt { fat = fat })

unfoldable pub reset_fat : ℕ → Dtree → Option Dtree
unfolding reset_loop update
reset_fat fb dt = with_fat dt (reset_loop (rounds dt) fb dt.fat)

-- `totSecNum * sizeof(fat_t)` for `totSecNum = newsize / bytsPerSec`, in `u32_t`
unfoldable pub table_size : ℕ → ℕ → ℕ
table_size newsize byts_per_sec = newsize / byts_per_sec % u32_mod * 4 % u32_mod

-- `(fatSize + bytsPerSec -1) / bytsPerSec`
unfoldable pub table_sectors : ℕ → ℕ → ℕ
table_sectors fat_size byts_per_sec =
    (fat_size + byts_per_sec + u32_mod - 1) % u32_mod / byts_per_sec

-- `(newsize-fatSize-bytsPerSec) / bytsPerSec`
unfoldable pub data_sectors : ℕ → ℕ → ℕ → ℕ
data_sectors newsize fat_size byts_per_sec =
    (newsize + u64_mod + u64_mod - fat_size - byts_per_sec) % u64_mod / byts_per_sec % u32_mod

-- The state of a successful `extend`. What `malloc` does not fill stays as it was granted.
unfoldable pub extended : Env → ℕ → Dtree → Dtree
unfolding table_size table_sectors data_sectors memcpy
extended e newsize dt =
    let byts_per_sec = dt.sb.byts_per_sec in
    let fat_size = table_size newsize byts_per_sec in
    let old_len = dt.dt_size - byts_per_sec - dt.sb.fat_sec_num * byts_per_sec in
    record dt {
      sb = record dt.sb {
        tot_sec_num = newsize / byts_per_sec % u32_mod;
        fat_sec_num = table_sectors fat_size byts_per_sec;
        fat_num = data_sectors newsize fat_size byts_per_sec;
      };
      fat = λ i. if ltb (i * 4) (dt.sb.fat_sec_num * byts_per_sec) then dt.fat i else 0;
      area = memcpy e.junk 0 dt.area 0 old_len;
      dt_size = newsize;
      dt_max = newsize;
    }

-- The code and the new state.
unfoldable pub extend : Env → ℕ → Dtree → ℤ × Dtree
unfolding extended
extend e newsize dt =
    if leb newsize dt.dt_size
    then (pos 1, dt)
    else if e.grants 0 newsize
    then (pos 0, extended e newsize dt)
    else (minus 9, dt)

-- `do { next = next_free_fat(…); if (next != -1) break; extend(dt, dt->dt_size * 2); } while (1)`
unfoldable pub find_free : Env → ℕ → ℕ → Dtree → Option (ℕ × Dtree)
unfolding extend
find_free e zero base dt = none
find_free e (suc k) base dt =
    let next = next_free_fat base dt.fat dt.sb.fat_num in
    let rest = find_free e k base (extend e (dt.dt_size * 2 % u32_mod) dt).1 in
    if next == no_fat then rest else some (next, dt)

-- One extension doubles the sectors, so a second round finds one; the size is 0 modulo 2^32 after 32.
abbrev tries : ℕ
tries = 34

unfoldable pub alloc_fat : Env → ℕ → Dtree → Option (ℕ × Dtree)
unfolding find_free next_free_fat extend
alloc_fat e base dt = find_free e tries base dt

-- One round: a sector's worth of the buffer is copied, and the sector ends the chain.
unfoldable pub write_sector : ℕ → ℕ → ℕ → Mem → Dtree → Dtree
unfolding memcpy update sector
write_sector i fat_index size buf dt =
    let len = if ltb size dt.sb.byts_per_sec then size else dt.sb.byts_per_sec in
    record dt {
      area = memcpy dt.area (sector dt fat_index) buf (sector dt i) len;
      fat = update dt.fat fat_index endsec;
    }

abbrev with_next : Option (ℕ × Dtree) → (ℕ → Dtree → Option Dtree) → Option Dtree
with_next none go = none
with_next (some (next, dt)) go = go next dt

-- The loop of `do_writefile`, of `initfile` and of `initdir`: `k` rounds are left, the sector `i` of
-- the buffer is the next, and `size` bytes are not yet written.
unfoldable pub write_loop : Env → ℕ → ℕ → ℕ → ℕ → Mem → Dtree → Option Dtree
unfolding alloc_fat write_sector update
write_loop e zero i fat_index size buf dt = some dt
write_loop e (suc zero) i fat_index size buf dt = some (write_sector i fat_index size buf dt)
write_loop e (suc (suc k)) i fat_index size buf dt =
    with_next (alloc_fat e fat_index (write_sector i fat_index size buf dt)) (λ next dt'.
      write_loop e (suc k) (i + 1) next ((size + u64_mod - dt'.sb.byts_per_sec) % u64_mod) buf
        (record dt' { fat = update dt'.fat fat_index next }))

abbrev with_dtree : Option Dtree → (Dtree → Option Dtree) → Option Dtree
with_dtree none go = none
with_dtree (some dt) go = go dt

unfoldable pub do_writefile : Env → ℕ → Mem → ℕ → Dtree → Option Dtree
unfolding reset_fat write_loop Meta.blocks
do_writefile e fb buf size dt =
    with_dtree (reset_fat fb dt) (write_loop e (Meta.blocks buf 0) 0 fb size buf)

-- The loop of `do_readfile`.
read_loop : ℕ → ℕ → ℕ → Mem → Dtree → Option Mem
unfolding memcpy sector
read_loop zero fat_num i buf dt = none
read_loop (suc k) fat_num i buf dt =
    let rest =
      read_loop k (dt.fat fat_num) (i + 1)
        (memcpy buf (sector dt i) dt.area (sector dt fat_num) dt.sb.byts_per_sec) dt in
    if fat_num == endsec then some buf else rest

unfoldable pub do_readfile : Dtree → ℕ → Mem → Option Mem
unfolding read_loop
do_readfile dt fb buf = read_loop (rounds dt) fb 0 buf dt
