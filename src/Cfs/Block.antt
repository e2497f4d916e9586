-- ===== src/Cfs/Block.antt =====
-- The fields of a `file_block_t` at an offset of a buffer (c_node/fs/cfs.h).
use sbpfs.Common.{ℕ, ◌+◌}
use sbpfs.Common.Mem.{Mem, u8_at, u32_at, u64_at, set_u8, set_u32, set_u64}

abbrev pub size : ℕ
size = 32

unfoldable pub block_num : Mem → ℕ → ℕ
unfolding u64_at
block_num m p = u64_at m p

unfoldable pub set_block_num : Mem → ℕ → ℕ → Mem
unfolding set_u64
set_block_num m p v = set_u64 m p v

unfoldable pub offset : Mem → ℕ → ℕ
unfolding u32_at
offset m p = u32_at m (p + 8)

unfoldable pub set_offset : Mem → ℕ → ℕ → Mem
unfolding set_u32
set_offset m p v = set_u32 m (p + 8) v

unfoldable pub length : Mem → ℕ → ℕ
unfolding u32_at
length m p = u32_at m (p + 12)

unfoldable pub set_length : Mem → ℕ → ℕ → Mem
unfolding set_u32
set_length m p v = set_u32 m (p + 12) v

unfoldable pub flags : Mem → ℕ → ℕ
unfolding u8_at
flags m p = u8_at m (p + 28)

unfoldable pub set_flags : Mem → ℕ → ℕ → Mem
unfolding set_u8
set_flags m p v = set_u8 m (p + 28) v
