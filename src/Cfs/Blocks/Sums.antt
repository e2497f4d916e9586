-- ===== src/Cfs/Blocks/Sums.antt =====
-- The lengths that `c_read` and `c_write` of c_node/fs/cfs.c send for the blocks of a range.
use sbpfs.Common.{
  ℕ, zero, suc, ◌+◌, ◌-◌, ◌*◌, ◌/◌, ◌%◌, ◌≤◌, ◌<◌, ◌≡◌, ap, ◌∙◌, arith, List, [], ◌∷◌, ne→==-false,
  lt→ltb,
}
use sbpfs.Common.Mem.{Mem, u32_mod}
use sbpfs.Cfs.State.{blocksize, add64, sub64}
use sbpfs.Cfs.Block
use sbpfs.Cfs.Blocks.{
  SendBlock, part, part_loop, sent_blocks, touched, tail_length, head_length, int_rounds,
}
use sbpfs.Cfs.Blocks.Range.{touched-blocks}

-- the bytes of all blocks
abbrev pub total : List SendBlock → ℕ
total [] = 0
total (b ∷ bs) = b.length + total bs

tail_length-le : (n : ℕ) → tail_length n ≤ blocksize
unfolding tail_length
tail_length-le n = ground arith

-- The blocks behind the first are whole, but for the last.
part_loop-total :
    (k i n offset last : ℕ) (buf : Mem) (p : ℕ)
    → 0 < i
    → i + suc k ≡ n
    → total (part_loop (suc k) i n offset last buf p) ≡ k * blocksize + tail_length last
unfolding part_loop part
part_loop-total zero i n offset last buf p pos e = ground arith
part_loop-total (suc k) i n offset last buf p pos e =
    ground (arith, part_loop-total k (i + 1) n offset last buf (p + Block.size))

-- With two blocks or more the first is sent up to its end, as if the range began in block 0.
sent_blocks-many :
    (k offset length : ℕ) (buf : Mem) (p : ℕ)
    → k < 2_147_483_646
    → total (sent_blocks (suc (suc k)) offset length buf p)
      ≡ head_length offset + (k * blocksize + tail_length (add64 offset length))
unfolding sent_blocks int_rounds
sent_blocks-many k offset length buf p small =
    rw (ne→==-false (suc (suc k)) 1 (omega arith), lt→ltb (suc (suc k)) 2_147_483_648 (omega arith))
      (unfold part_loop part in
        ap (λ t. head_length offset + t)
          (part_loop-total k 1 (suc (suc k)) offset (add64 offset length) buf (p + Block.size)
            (omega arith) (omega arith)))

sent_blocks-one :
    (offset length : ℕ) (buf : Mem) (p : ℕ)
    → total (sent_blocks 1 offset length buf p) ≡ length % u32_mod
unfolding sent_blocks
sent_blocks-one offset length buf p = omega arith

parts_fit :
    (offset length k : ℕ)
    → offset < blocksize
    → offset + length < 36_028_797_002_186_752
    → suc (suc k) ≡ (offset + length - 1) / blocksize - offset / blocksize + 1
    → head_length offset + (k * blocksize + tail_length (add64 offset length)) ≡ length
unfolding head_length tail_length add64 sub64
parts_fit offset length k h small e = ground arith

-- For a range that begins in the first block of a file, the lengths of the blocks that are sent add
-- up to the length of the range.
pub sent_blocks-total :
    (offset length : ℕ) (buf : Mem) (p : ℕ)
    → offset < blocksize
    → 0 < length
    → offset + length < 36_028_797_002_186_752
    → total (sent_blocks (touched offset length) offset length buf p) ≡ length
sent_blocks-total offset length buf p h pos small =
    by_count (touched offset length) (touched-blocks offset length pos small)
  where
    by_count :
        (n : ℕ)
        → n ≡ (offset + length - 1) / blocksize - offset / blocksize + 1
        → total (sent_blocks n offset length buf p) ≡ length
    by_count zero e = absurd (omega arith)
    by_count (suc zero) e = sent_blocks-one offset length buf p ∙ omega arith
    by_count (suc (suc k)) e =
        sent_blocks-many k offset length buf p (omega arith) ∙ parts_fit offset length k h small e

parts_wrap :
    (offset length k : ℕ)
    → blocksize < offset
    → offset < u32_mod
    → offset + length < 36_028_797_002_186_752
    → suc (suc k) ≡ (offset + length - 1) / blocksize - offset / blocksize + 1
    → head_length offset + (k * blocksize + tail_length (add64 offset length))
      ≡ length + (u32_mod - offset / blocksize * blocksize)
unfolding head_length tail_length add64 sub64
parts_wrap offset length k far near small e = ground arith

-- For a range over two blocks or more that begins more than a block behind the start of a file and
-- below 4 GB, the lengths of the blocks that are sent add up to more than the range: by 4 GB, less the
-- blocks before the one in which it begins. The range is not empty and ends below 2^55 - 2^24.
pub sent_blocks-wraps :
    (offset length : ℕ) (buf : Mem) (p : ℕ)
    → blocksize < offset
    → offset < u32_mod
    → 0 < length
    → offset + length < 36_028_797_002_186_752
    → offset / blocksize < (offset + length - 1) / blocksize
    → total (sent_blocks (touched offset length) offset length buf p)
      ≡ length + (u32_mod - offset / blocksize * blocksize)
sent_blocks-wraps offset length buf p far near pos small more =
    by_count (touched offset length) (touched-blocks offset length pos small)
  where
    by_count :
        (n : ℕ)
        → n ≡ (offset + length - 1) / blocksize - offset / blocksize + 1
        → total (sent_blocks n offset length buf p)
          ≡ length + (u32_mod - offset / blocksize * blocksize)
    by_count zero e = absurd (omega (arith, e))
    by_count (suc zero) e = absurd (omega (arith, e, more))
    by_count (suc (suc k)) e =
        sent_blocks-many k offset length buf p (omega (arith, e, small))
        ∙ parts_wrap offset length k far near small e
