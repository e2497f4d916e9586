-- ===== src/Cfs/Blocks.antt =====
-- The blocks of a file's range: `up_div`, `gen_ip_index`, `alloc_block`, `c_read` and `c_write` of
-- c_node/fs/cfs.c. The C `int`s are bit patterns below 2^32.
pub mod Range
pub mod Sums
pub mod Fresh
pub mod Read
use Prim.Native.Nat.{bit_or}
use sbpfs.Common.{
  ℕ, zero, suc, ◌+◌, ◌-◌, ◌*◌, ◌/◌, ◌%◌, ◌^◌, Option, none, some, ltb, ◌==◌, ◌&&◌, not,
  if◌then◌else◌, List, [], ◌∷◌, ◌++◌, length, get_elem?,
}
use sbpfs.Common.Mem.{Mem, memcpy, set_u32, u32_at, u32_mod, u64_mod}
use sbpfs.Common.Run.{
  Cmd, ℤ, minus, int_of_u32, pure, return_if, ◌>>=◌, ◌>>◌, get, put_state, or_endless, modify,
}
use sbpfs.Cfs.State.{Dtree, Env, malloc, read_meta, sub64, add64, blocksize, nr_copy}
use sbpfs.Cfs.Meta
use sbpfs.Cfs.Block
use sbpfs.Cfs.Fat.{do_readfile, do_writefile}

unfoldable pub up_div : ℕ → ℕ → ℕ
unfolding sub64
up_div a b = sub64 (a + b) 1 / b

pub record SendBlock : Type 0 where
  pub block_num : ℕ
  pub offset : ℕ
  pub length : ℕ
  pub ip : List ℕ

-- `memcpy(sblock_ptr->ip, fb_p->ip, NR_COPY*sizeof(u32_t))`
unfoldable pub ips_at : Mem → ℕ → List ℕ
unfolding u32_at
ips_at m p = u32_at m (p + 16) ∷ u32_at m (p + 20) ∷ u32_at m (p + 24) ∷ []

-- The number of blocks that the bytes from `offset` up to `offset+length` touch, as an `int`.
unfoldable pub touched : ℕ → ℕ → ℕ
unfolding up_div sub64 add64
touched offset length =
    let last = add64 offset length in
    let offset_1 = up_div offset blocksize * blocksize % u64_mod in
    let length_1 = last / blocksize * blocksize in
    let whole = sub64 length_1 offset_1 / blocksize % u32_mod in
    let first = if offset == offset_1 then whole else (whole + 1) % u32_mod in
    if last == length_1 then first else (first + 1) % u32_mod

-- `x < 2^31`: how often `for (i = 0; i < n; i++)` runs for an `int` n
unfoldable pub int_rounds : ℕ → ℕ
int_rounds n = if ltb n (2 ^ 31) then n else 0

-- the length of a block's part that the range's end cuts: `(n%BLOCKSIZE) ? n%BLOCKSIZE : BLOCKSIZE`
unfoldable pub tail_length : ℕ → ℕ
tail_length n = if n % blocksize == 0 then blocksize else n % blocksize

-- `BLOCKSIZE - offset`, as a `u32_t`
unfoldable pub head_length : ℕ → ℕ
unfolding sub64
head_length offset = sub64 blocksize offset % u32_mod

-- offset and length in block number `i` of `n`
unfoldable pub part : ℕ → ℕ → ℕ → ℕ → ℕ × ℕ
unfolding head_length tail_length add64
part i n offset last =
    if i == 0
    then (offset % blocksize, head_length offset)
    else if i == n - 1
    then (0, tail_length last)
    else (0, blocksize)

-- The loop over `blocknum` blocks, of which `k` are left.
part_loop : ℕ → ℕ → ℕ → ℕ → ℕ → Mem → ℕ → List SendBlock
unfolding part ips_at Block.block_num
part_loop zero i n offset last buf fb_p = []
part_loop (suc k) i n offset last buf fb_p =
    record {
      block_num = Block.block_num buf fb_p;
      offset = (part i n offset last).0;
      length = (part i n offset last).1;
      ip = ips_at buf fb_p;
    }
    ∷ part_loop k (i + 1) n offset last buf (fb_p + Block.size)

-- The blocks that `c_read` sends, and that `c_write` sends where no block is new.
unfoldable pub sent_blocks : ℕ → ℕ → ℕ → Mem → ℕ → List SendBlock
unfolding part_loop int_rounds ips_at Block.block_num add64
sent_blocks n offset length buf fb_p =
    if n == 1
    then record {
      block_num = Block.block_num buf fb_p;
      offset = offset % blocksize;
      length = length % u32_mod;
      ip = ips_at buf fb_p;
    }
      ∷ []
    else part_loop (int_rounds n) 0 n offset (add64 offset length) buf fb_p

-- `buf+sizeof(file_meta_t) + (offset/BLOCKSIZE) * sizeof(file_block_t)`
abbrev pub block_ptr : ℕ → ℕ
block_ptr offset = 64 + offset / blocksize * Block.size

-- the bytes that are there to be read
unfoldable pub clip : ℕ → ℕ → ℕ → ℕ
clip flen offset length = if ltb length (flen - offset) then length else flen - offset

-- The number of blocks and the blocks.
unfoldable pub c_read : Env → ℕ → ℕ → ℕ → Cmd Dtree (ℤ × List SendBlock)
unfolding read_meta do_readfile touched sent_blocks clip int_of_u32 Meta.flen Meta.blocks
c_read e fb offset length = do
  dt ← get
  let meta = read_meta dt fb
  let flen = Meta.flen meta 0
  return_if (ltb flen offset) (minus 1)
  let length' = clip flen offset length
  raw ← malloc e 19 (Meta.blocks meta 0 * dt.sb.byts_per_sec % u32_mod)
  buf ← or_endless (do_readfile dt fb raw)
  let blocknum = touched offset length'
  pure (int_of_u32 blocknum, sent_blocks blocknum offset length' buf (block_ptr offset))

-- `(i++) % max`, over the counter
unfoldable pub gen_ip_index : ℕ → Dtree → ℕ × Dtree
gen_ip_index max dt = (dt.ip_index % max, record dt { ip_index = dt.ip_index + 1 })

abbrev ip_or_zero : List ℕ → ℕ → ℕ
ip_or_zero ips i = elim (get_elem? ips i) [ none ↦ 0 | some ip ↦ ip ]

-- The loop of `alloc_block`: `k` copies are left, `i` is the next, `first` is `block->ip[0]`.
ip_loop : ℕ → ℕ → ℕ → List ℕ → ℕ → Mem → ℕ → Dtree → Mem × Dtree
unfolding gen_ip_index set_u32
ip_loop zero i first ips max buf block dt = (buf, dt)
ip_loop (suc k) i first ips max buf block dt =
    let ip = ip_or_zero ips (gen_ip_index max dt).0 in
    let dt' = (gen_ip_index max dt).1 in
    let first' = if i == 0 then ip else first in
    let rest = ip_loop k (i + 1) first' ips max (set_u32 buf (block + 16 + 4 * i) ip) block dt' in
    if not (i == 0) && (ip == first) then (buf, dt') else rest

-- the number, the offset and the flags of a new block
unfoldable pub stamp_block : Mem → ℕ → ℕ → Mem
unfolding Block.set_block_num Block.set_offset Block.set_flags Block.flags
stamp_block m block n =
    let m1 : Mem = Block.set_block_num m block n in
    let m2 : Mem = Block.set_offset m1 block 0 in
    Block.set_flags m2 block (bit_or (Block.flags m2 block) 1)

-- The new buffer, with the block at an offset of it, and the new state.
unfoldable pub alloc_block : List ℕ → ℕ → Mem → ℕ → Dtree → Mem × Dtree
unfolding memcpy ip_loop stamp_block
alloc_block ips max buf block dt =
    let (m0, dt') = ip_loop nr_copy 0 0 ips max (memcpy buf block (λ _. 0) 0 Block.size) block dt in
    (
      stamp_block m0 block dt'.sb.max_block_num,
      record dt' { sb = record dt'.sb { max_block_num = (dt'.sb.max_block_num + 1) % u64_mod } },
    )

-- `fb_p->length` of the last block that is written to, where no block is new.
unfoldable pub touch_last : ℕ → ℕ → ℕ → Mem → ℕ → Mem
unfolding int_rounds tail_length add64 Block.length Block.set_length
touch_last n offset length buf fb_p =
    if n == 1
    then Block.set_length buf fb_p (add64 length offset % u32_mod)
    else if ltb 1 (int_rounds n)
    then (let p = fb_p + (n - 1) * Block.size in
        let last = tail_length (add64 offset length) in
        Block.set_length buf p (if ltb last (Block.length buf p) then Block.length buf p else last))
    else buf

-- The loop over the blocks that are there before the new ones; each is sent up to its end.
old_loop : ℕ → ℕ → ℕ → Mem → ℕ → List SendBlock
unfolding head_length ips_at Block.block_num
old_loop zero i offset buf fb_p = []
old_loop (suc k) i offset buf fb_p =
    record {
      block_num = Block.block_num buf fb_p;
      offset = if i == 0 then offset % blocksize else 0;
      length = if i == 0 then head_length offset else blocksize;
      ip = ips_at buf fb_p;
    }
    ∷ old_loop k (i + 1) offset buf (fb_p + Block.size)

-- The loop over the new blocks, of which `k` are left.
unfoldable pub new_loop : ℕ → ℕ → List ℕ → ℕ → Mem → Dtree → List SendBlock × Mem × Dtree
unfolding alloc_block tail_length add64 ips_at Meta.strbase Meta.set_strbase Block.block_num
    Block.set_length
new_loop zero length ips iplen buf dt = ([], buf, dt)
new_loop (suc k) length ips iplen buf dt =
    let block = 64 + Meta.strbase buf 0 in
    let (m0, dt') = alloc_block ips iplen buf block dt in
    let len : ℕ = if k == 0 then tail_length length else blocksize in
    let m1 : Mem = Block.set_length m0 block len in
    let m2 : Mem = Meta.set_strbase m1 0 (add64 (Meta.strbase m1 0) Block.size) in
    let (sent, m3, dt2) = new_loop k length ips iplen m2 dt' in
    (
      record {
        block_num = Block.block_num m0 block;
        offset = 0;
        length = len;
        ip = ips_at m1 block;
      }
          ∷ sent,
      m3,
      dt2,
    )

-- Which blocks are sent, with the buffer and the state that follow: where no block is new, and
-- where some are. The count of the old blocks is an `int` that is compared as a `u64_t`, so the loop
-- over them does not end where it is negative.
unfoldable pub write_blocks :
    ℕ → ℕ → ℕ → ℕ → List ℕ → ℕ → Mem → Dtree → Option (List SendBlock × Mem × Dtree)
unfolding sent_blocks touch_last old_loop new_loop int_rounds
write_blocks n fresh offset length ips iplen buf dt =
    if int_rounds fresh == 0
    then some (
      sent_blocks n offset length buf (block_ptr offset),
      touch_last n offset length buf (block_ptr offset),
      dt,
    )
    else (let old = (n + u32_mod - fresh) % u32_mod in
        if ltb old (2 ^ 31)
        then (let sent = old_loop old 0 offset buf (block_ptr offset) in
            let (more, m, dt') = new_loop fresh length ips iplen buf dt in
            some (sent ++ more, m, dt'))
        else none)

-- The number of blocks and the blocks.
unfoldable pub c_write : Env → ℕ → ℕ → ℕ → List ℕ → ℕ → Cmd Dtree (ℤ × List SendBlock)
unfolding read_meta do_readfile do_writefile touched write_blocks up_div sub64 add64 int_of_u32
    Meta.flen Meta.blocks Meta.strbase Meta.set_flen Meta.set_w_time Meta.set_blocks
c_write e fb offset length ips iplen = do
  dt ← get
  let meta = read_meta dt fb
  let last = add64 offset length
  let flen = Meta.flen meta 0
  let newsize : ℕ = if ltb flen last then last else flen
  return_if (ltb flen offset) (minus 1)
  let bufsize_1 = 64 + up_div last blocksize * Block.size
  let bufsize_2 = Meta.blocks meta 0 * dt.sb.byts_per_sec % u32_mod
  raw ← malloc e 20 (if ltb bufsize_2 bufsize_1 then bufsize_1 else bufsize_2)
  buf ← or_endless (do_readfile dt fb raw)
  let blocknum = touched offset length
  let newblocknum = (up_div last blocksize + u64_mod - up_div flen blocksize) % u32_mod
  (sent, m0, dt') ← or_endless (write_blocks blocknum newblocknum offset length ips iplen buf dt)
  put_state dt'
  let m1 = Meta.set_w_time (Meta.set_flen m0 0 newsize) 0 e.now
  let m2 = Meta.set_blocks m1 0 (up_div (64 + Meta.strbase m1 0) dt'.sb.byts_per_sec % u32_mod)
  modify (do_writefile e fb m2 (64 + Meta.strbase m2 0))
  pure (int_of_u32 blocknum, sent)
