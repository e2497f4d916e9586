-- ===== src/Cfs/Query/Modes.antt =====
-- What `c_chmod` of c_node/fs/cfs.c writes.
use sbpfs.Common.{ℕ, ◌+◌, ◌-◌, ◌*◌, ◌/◌, ◌%◌, ◌<◌, ap, ◌∙◌, ◌≡◌, ◌≢◌, refl, arith, true, List}
use sbpfs.Common.Mem.{Mem, memcpy, set_u8, set_u8_out, put}
use sbpfs.Common.Run.{done, pos}
use sbpfs.Cfs.State.{Dtree, Env, FileEntry, sector, read_meta}
use sbpfs.Cfs.Meta
use sbpfs.Cfs.Perm.{own_check}
use sbpfs.Cfs.Path.{c_lookup}
use sbpfs.Cfs.Query.{write_meta, chmod_flags, c_chmod}
use sbpfs.Cfs.Query.Chmod.{chmod_flags_low}

set_u8_self : (m : Mem) (o v : ℕ) → set_u8 m o v o ≡ v % 256
unfolding set_u8 put
set_u8_self m o v = ground arith

read_meta-at : (dt : Dtree) (fb o : ℕ) → o < 64 → read_meta dt fb o ≡ dt.area (sector dt fb + o)
unfolding read_meta memcpy
read_meta-at dt fb o h = ground arith

new_flags-byte :
    (flags mode : ℕ)
    → flags < 256
    → mode < 16
    → (flags / 16 * 16 + mode) % 256 ≡ flags / 16 * 16 + mode
new_flags-byte flags mode byte four = omega (arith, byte, four)

module _ (dt : Dtree) (fb o v : ℕ) (h : o < 64) where
  abbrev patched : Dtree
  patched = write_meta fb (set_u8 (read_meta dt fb) o v) dt

  patched_at : patched.area (sector dt fb + o) ≡ v % 256
  unfolding write_meta memcpy
  patched_at = ground (arith, set_u8_self (read_meta dt fb) o v)

  patched_out : (a : ℕ) → a ≢ sector dt fb + o → patched.area a ≡ dt.area a
  unfolding write_meta memcpy
  patched_out a ne = ground (
    arith,
    set_u8_out (read_meta dt fb) o v (a - sector dt fb),
    read_meta-at dt fb (a - sector dt fb),
  )

-- For the root and the owner of a file that `c_lookup` finds, `c_chmod` with a mode of four bits
-- returns 0 and changes one byte of the data, the flags of the file's meta data: the mode takes the
-- place of their low four bits, and their high four bits stay. The flags are a byte.
pub c_chmod-flags :
    (e : Env) (path : List ℕ) (mode uid : ℕ) (dt : Dtree) (entry : FileEntry)
    → c_lookup e path dt ≡ done entry dt
    → own_check uid (Meta.uid (read_meta dt entry.fb) 0) ≡ true
    → Meta.flags (read_meta dt entry.fb) 0 < 256
    → mode < 16
    → (dt' : Dtree) × (c_chmod e path mode uid dt ≡ done (pos 0) dt')
      × (dt' ≡ record dt { area = dt'.area })
      × (dt'.area (sector dt entry.fb + 60) ≡ Meta.flags (read_meta dt entry.fb) 0 / 16 * 16 + mode)
      × ((a : ℕ) → a ≢ sector dt entry.fb + 60 → dt'.area a ≡ dt.area a)
unfolding c_chmod Meta.set_flags
c_chmod-flags e path mode uid dt entry look own byte four =
    let flags = Meta.flags (read_meta dt entry.fb) 0 in
    let v = chmod_flags (Meta.flags (read_meta dt entry.fb) 0) mode in
    (
      patched dt entry.fb 60 v (omega arith),
      rw (look, own) refl,
      unfold write_meta in refl,
      patched_at dt entry.fb 60 v (omega arith)
          ∙ (ap (λ n. n % 256) (chmod_flags_low flags mode byte four)
              ∙ new_flags-byte flags mode byte four),
      patched_out dt entry.fb 60 v (omega arith),
    )
