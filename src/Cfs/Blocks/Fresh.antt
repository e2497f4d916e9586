-- ===== src/Cfs/Blocks/Fresh.antt =====
-- The new blocks of `c_write` in c_node/fs/cfs.c get numbers of their own.
use sbpfs.Common.{ℕ, zero, suc, ◌+◌, List, [], ◌∷◌}
use sbpfs.Common.Mem.{Mem}
use sbpfs.Cfs.Block
use sbpfs.Cfs.Meta
use sbpfs.Cfs.Blocks.{SendBlock}

-- `k` numbers from `n` on
abbrev pub numbers : ℕ → ℕ → List ℕ
numbers zero n = []
numbers (suc k) n = n ∷ numbers k (n + 1)

abbrev pub block_nums_of : List SendBlock → List ℕ
block_nums_of [] = []
block_nums_of (b ∷ bs) = b.block_num ∷ block_nums_of bs
