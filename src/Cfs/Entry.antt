-- ===== src/Cfs/Entry.antt =====
-- The fields of a `file_entry_t` at an offset of a buffer (c_node/fs/cfs.h).
use sbpfs.Common.{ℕ, ◌+◌}
use sbpfs.Common.Mem.{Mem, u8_at, u32_at, u64_at, set_u8, set_u32, set_u64}

abbrev pub size : ℕ
size = 16

unfoldable pub name : Mem → ℕ → ℕ
unfolding u64_at
name m p = u64_at m p

unfoldable pub set_name : Mem → ℕ → ℕ → Mem
unfolding set_u64
set_name m p v = set_u64 m p v

unfoldable pub fb : Mem → ℕ → ℕ
unfolding u32_at
fb m p = u32_at m (p + 8)

unfoldable pub set_fb : Mem → ℕ → ℕ → Mem
unfolding set_u32
set_fb m p v = set_u32 m (p + 8) v

unfoldable pub type : Mem → ℕ → ℕ
unfolding u8_at
type m p = u8_at m (p + 12)

unfoldable pub set_type : Mem → ℕ → ℕ → Mem
unfolding set_u8
set_type m p v = set_u8 m (p + 12) v
