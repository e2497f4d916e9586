-- ===== src/Cfs/Disk/Layout.antt =====
-- The bytes of the buffer `dt_buf` of a `dtree_t`: the super block, the table and the data (the structs
-- of c_node/fs/cfs.h), and the pointers that `open_disk` of c_node/fs/cfs.c sets into a buffer.
use sbpfs.Common.{ℕ, zero, suc, ◌+◌, ◌-◌, ◌*◌, ◌/◌, ◌%◌, ltb, if◌then◌else◌, List, [], ◌∷◌, ◌++◌}
use sbpfs.Common.Mem.{Mem, text_at, put, u32_at, u64_at, u32_bytes, u32_mod}
use sbpfs.Cfs.State.{Dtree, Sb, freesec}

-- a file
pub record Image : Type 0 where
  pub size : ℕ
  pub bytes : Mem

-- The super block at the start of a buffer.
unfoldable pub sb_of : Mem → ℕ → Sb
unfolding text_at u32_at u64_at
sb_of m byts_per_sec = record {
  fstype = text_at 16 m 0;
  byts_per_sec = byts_per_sec;
  tot_sec_num = u32_at m 20;
  fat_sec_num = u32_at m 24;
  fat_num = u32_at m 28;
  max_block_num = u64_at m 32;
}

-- The table in a buffer, with free entries behind it.
unfoldable pub fat_of : Mem → ℕ → ℕ → ℕ
unfolding u32_at
fat_of m fat_sec_num i = if ltb i (128 * fat_sec_num) then u32_at m (512 + 4 * i) else freesec

unfoldable pub pad : ℕ → List ℕ → List ℕ
pad zero xs = []
pad (suc n) [] = 0 ∷ pad n []
pad (suc n) (x ∷ xs) = x ∷ pad n xs

abbrev pub sb_list : Sb → List ℕ
unfolding pad
sb_list sb =
    pad 16 sb.fstype
    ++ (u32_bytes sb.byts_per_sec
        ++ (u32_bytes sb.tot_sec_num
            ++ (u32_bytes sb.fat_sec_num
                ++ (u32_bytes sb.fat_num
                    ++ (u32_bytes sb.max_block_num ++ u32_bytes (sb.max_block_num / u32_mod))))))

-- byte `k` of a `u32_t`
unfoldable pub byte_of : ℕ → ℕ → ℕ
byte_of v zero = v % 256
byte_of v (suc zero) = v / 256 % 256
byte_of v (suc (suc zero)) = v / 65_536 % 256
byte_of v (suc (suc (suc k))) = v / 16_777_216 % 256

-- What `dt_buf` holds, where `gap` stands behind the super block.
unfoldable pub dt_bytes : Dtree → Mem → Mem
unfolding put byte_of
dt_bytes dt gap a =
    if ltb a 512
    then put gap 0 (sb_list dt.sb) a
    else if ltb a (512 + 512 * dt.sb.fat_sec_num)
    then byte_of (dt.fat ((a - 512) / 4)) ((a - 512) % 4)
    else dt.area (a - 512 - 512 * dt.sb.fat_sec_num)
