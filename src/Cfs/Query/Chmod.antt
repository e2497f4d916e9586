-- ===== src/Cfs/Query/Chmod.antt =====
-- The flags that `c_chmod` of c_node/fs/cfs.c writes.
use sbpfs.Common.{ℕ, ◌+◌, ◌*◌, ◌/◌, ◌<◌, ◌≡◌, refl, true, ◌==◌, ==→eq}
use sbpfs.Common.Tables.{each_below, each_below_lem}
use sbpfs.Cfs.Query.{chmod_flags}

low_modes : each_below 256 (λ f. each_below 16 (λ m. chmod_flags f m == f / 16 * 16 + m)) ≡ true
unfolding each_below chmod_flags
low_modes = refl

-- A mode of four bits replaces the four permission bits of the flags, and keeps the other bits.
pub chmod_flags_low :
    (flags mode : ℕ) → flags < 256 → mode < 16 → chmod_flags flags mode ≡ flags / 16 * 16 + mode
chmod_flags_low flags mode hf hm = ==→eq _ _ (
    each_below_lem (λ m. chmod_flags flags m == flags / 16 * 16 + m) 16
      (each_below_lem (λ f. each_below 16 (λ m. chmod_flags f m == f / 16 * 16 + m)) 256 low_modes
        flags hf)
      mode hm)
