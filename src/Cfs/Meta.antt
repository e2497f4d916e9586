-- ===== src/Cfs/Meta.antt =====
-- The fields of a `file_meta_t` at an offset of a buffer (c_node/fs/cfs.h).
use sbpfs.Common.{ℕ, ◌+◌}
use sbpfs.Common.Mem.{Mem, u8_at, u32_at, u64_at, set_u8, set_u32, set_u64}

abbrev pub size : ℕ
size = 64

unfoldable pub uid : Mem → ℕ → ℕ
unfolding u32_at
uid m p = u32_at m p

unfoldable pub set_uid : Mem → ℕ → ℕ → Mem
unfolding set_u32
set_uid m p v = set_u32 m p v

unfoldable pub count : Mem → ℕ → ℕ
unfolding u32_at
count m p = u32_at m (p + 4)

unfoldable pub set_count : Mem → ℕ → ℕ → Mem
unfolding set_u32
set_count m p v = set_u32 m (p + 4) v

unfoldable pub flen : Mem → ℕ → ℕ
unfolding u64_at
flen m p = u64_at m (p + 8)

unfoldable pub set_flen : Mem → ℕ → ℕ → Mem
unfolding set_u64
set_flen m p v = set_u64 m (p + 8) v

unfoldable pub c_time : Mem → ℕ → ℕ
unfolding u64_at
c_time m p = u64_at m (p + 16)

unfoldable pub set_c_time : Mem → ℕ → ℕ → Mem
unfolding set_u64
set_c_time m p v = set_u64 m (p + 16) v

unfoldable pub r_time : Mem → ℕ → ℕ
unfolding u64_at
r_time m p = u64_at m (p + 24)

unfoldable pub set_r_time : Mem → ℕ → ℕ → Mem
unfolding set_u64
set_r_time m p v = set_u64 m (p + 24) v

unfoldable pub w_time : Mem → ℕ → ℕ
unfolding u64_at
w_time m p = u64_at m (p + 32)

unfoldable pub set_w_time : Mem → ℕ → ℕ → Mem
unfolding set_u64
set_w_time m p v = set_u64 m (p + 32) v

unfoldable pub strbase : Mem → ℕ → ℕ
unfolding u64_at
strbase m p = u64_at m (p + 40)

unfoldable pub set_strbase : Mem → ℕ → ℕ → Mem
unfolding set_u64
set_strbase m p v = set_u64 m (p + 40) v

unfoldable pub strlen : Mem → ℕ → ℕ
unfolding u64_at
strlen m p = u64_at m (p + 48)

unfoldable pub set_strlen : Mem → ℕ → ℕ → Mem
unfolding set_u64
set_strlen m p v = set_u64 m (p + 48) v

unfoldable pub blocks : Mem → ℕ → ℕ
unfolding u32_at
blocks m p = u32_at m (p + 56)

unfoldable pub set_blocks : Mem → ℕ → ℕ → Mem
unfolding set_u32
set_blocks m p v = set_u32 m (p + 56) v

unfoldable pub flags : Mem → ℕ → ℕ
unfolding u8_at
flags m p = u8_at m (p + 60)

unfoldable pub set_flags : Mem → ℕ → ℕ → Mem
unfolding set_u8
set_flags m p v = set_u8 m (p + 60) v
