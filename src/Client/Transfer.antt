-- ===== src/Client/Transfer.antt =====
-- The loops of libc/read_write.c over nodes end, and leave the descriptors as they are.
use sbpfs.Common.{
  ℕ, zero, suc, ◌+◌, ◌≤◌, ◌≡◌, refl, arith, true, ◌==◌, ==→eq, leb, if◌then◌else◌, Option, none,
  some, List, [], ◌∷◌, length, take, drop, codes,
}
use sbpfs.Common.Run.{Cmd, pure, ◌>>◌}
use sbpfs.Head.Strings.{Bytes}
use sbpfs.Head.{Head}
use sbpfs.Net.{get_dnode_hostname}
use sbpfs.Trace.{Place}
use sbpfs.Client.State.{Client, Talker, Libc, head_err, dnode_service_port, in_bounds}
use sbpfs.Client.Request.{request_head}
use sbpfs.Client.Blocks.{
  BlockEntry, rw_at, block_request, block_result, block_body, read_block, write_block, read_nodes,
  write_nodes,
}
use sbpfs.Client.Safe.{
  IsSafe, bind-IsSafe, then-IsSafe, pure-IsSafe, if-IsSafe, elim-IsSafe, ignoring-IsSafe,
  in_bounds-IsSafe, seterr-IsSafe, sbp_get_uand_p-IsSafe, message_of-IsSafe,
}
use sbpfs.Client.Gives.{
  Maybe, Gives, bind-Gives, pure-Gives, if-Gives, then-Gives, ignoring-Gives, IsSafe-Gives,
  Gives-IsSafe, bind-with-IsSafe,
}
use sbpfs.Client.Received.{
  IsFittingTalker, IsWhole, fail-Gives, refused-Gives, entry_of-Gives, head_of-Gives, talk-Gives,
  sendrec_hostname-Gives,
}

-- What is read of a block is no longer than the block.
abbrev IsPart : BlockEntry → ℕ × Bytes → Type 0
IsPart b (n, bytes) = length bytes ≤ b.length_in_block

length-take_le : (n : ℕ) (xs : Bytes) → length (take n xs) ≤ n
length-take_le zero xs = omega arith
length-take_le (suc n) [] = omega arith
length-take_le (suc n) (x ∷ xs) = omega (arith, length-take_le n xs)

module _ {W : Type 0} (talker : Talker W) (c : Libc) where
  block_result-Gives :
      {A : Type 0} {P : A → Type 0} (place : Place) (head : Head) (go : Cmd (Client W) A)
      (unknown : A)
      → P unknown
      → Gives P go
      → Gives P (block_result talker c place head go unknown)
  unfolding block_result
  block_result-Gives place head go unknown p h = if-Gives _ h (
      if-Gives _ (refused-Gives talker c head)
        (bind-Gives (IsSafe-Gives (seterr-IsSafe talker c _ _ place)) λ _ _. pure-Gives unknown p))

  sized-IsPart :
      (b : BlockEntry) (n : ℕ) (head : Head) (rec_data : Bytes)
      → (n == b.length_in_block) ≡ true
      → head.head_len + n ≤ length rec_data
      → Gives {W = W} (IsPart b) (
          in_bounds (leb (head.head_len + n) (length rec_data))
          >> pure (n, take n (drop head.head_len rec_data)))
  sized-IsPart b n head rec_data same whole =
      let inside : leb (head.head_len + n) (length rec_data) ≡ true = ground (arith, whole) in
      let part : length (take n (drop head.head_len rec_data)) ≤ b.length_in_block =
        omega
          (arith, ==→eq n b.length_in_block same, length-take_le n (drop head.head_len rec_data)) in
      record { ends = λ s. rw inside (part, refl) }

  block_body-Gives :
      (b : BlockEntry) (head : Head) (rec_data : Bytes)
      → IsWhole c head rec_data
      → Gives (IsPart b) (block_body talker c b head rec_data)
  unfolding block_body
  block_body-Gives b head rec_data whole =
      bind-Gives
        (entry_of-Gives talker c (codes "Content-Length") head_err
          (codes "Missing Content-Length Entry") (rw_at (codes "read_block") 195) head)
        λ value found.
          then-Gives (c.atoll value == b.length_in_block)
            (λ same. sized-IsPart b (c.atoll value) head rec_data same (whole value found))
            (fail-Gives talker c _ _ _)

module _ {W : Type 0} (talker : Talker W) (c : Libc) (fitting : IsFittingTalker talker c) where
  read_block-Gives :
      (b : BlockEntry) (node : ℕ) (auth : Bytes)
      → Gives (IsPart b) (read_block talker c b node auth)
  unfolding read_block
  read_block-Gives b node auth =
      let at = rw_at (codes "read_block") in
      let host = get_dnode_hostname (c.sprintf (codes "%u")) node in
      bind-Gives (IsSafe-Gives (sbp_get_uand_p-IsSafe talker c)) λ (usr, pass) _.
        bind-Gives
          (IsSafe-Gives (
            message_of-IsSafe talker c (at 175)
              (request_head usr pass (block_request c auth (codes "READ") b (codes "0")))))
          λ message _.
            bind-Gives (sendrec_hostname-Gives talker c fitting host dnode_service_port message)
              λ rec_data fit. bind-Gives (head_of-Gives talker c (at 184) rec_data fit) λ head dec.
                block_result-Gives talker c (at 210) head (block_body talker c b head rec_data)
                  (0, []) (omega arith)
                  (block_body-Gives talker c b head rec_data
                    λ value found. fit.whole head value dec found)

  write_block-IsSafe :
      (b : BlockEntry) (node : ℕ) (buf auth : Bytes)
      → b.length_in_block ≤ length buf
      → IsSafe (write_block talker c b node buf auth)
  unfolding write_block
  write_block-IsSafe b node buf auth enough =
      let at = rw_at (codes "write_block") in
      let host = get_dnode_hostname (c.sprintf (codes "%u")) node in
      let len = c.sprintf (codes "%d") b.length_in_block in
      bind-IsSafe (sbp_get_uand_p-IsSafe talker c) λ (usr, pass).
        bind-IsSafe
          (message_of-IsSafe talker c (at 307)
            (request_head usr pass (block_request c auth (codes "WRITE") b len)))
          λ message. then-IsSafe (in_bounds-IsSafe _ (ground (arith, enough))) (
            bind-with-IsSafe
              (talk-Gives talker c fitting (at 315) (at 322) (at 334) host dnode_service_port
                (message ∷ take b.length_in_block buf ∷ []))
              λ rec_data fit.
                bind-with-IsSafe (head_of-Gives talker c (at 339) rec_data fit) λ head dec.
                  Gives-IsSafe (
                    block_result-Gives talker c (at 361) head (pure b.length_in_block) 0 tt
                      (IsSafe-Gives (pure-IsSafe b.length_in_block))))

  -- What is read is no longer than the block.
  pub read_nodes-Gives :
      (b : BlockEntry) (nodes : List ℕ) (auth : Bytes)
      → Gives (λ bytes. length bytes ≤ b.length_in_block) (read_nodes talker c b nodes auth)
  unfolding read_nodes
  read_nodes-Gives b [] auth = record { ends = λ s. (refl, refl) }
  read_nodes-Gives b (node ∷ nodes) auth = if-Gives (node == 0) (read_nodes-Gives b nodes auth) (
      bind-Gives (ignoring-Gives (read_block-Gives b node auth))
        λ result part. by_result result part (read_nodes-Gives b nodes auth))
    where
      by_result :
          (result : Option (ℕ × Bytes))
          → Maybe (IsPart b) result
          → Gives (λ bytes. length bytes ≤ b.length_in_block) (read_nodes talker c b nodes auth)
          → Gives
              (λ bytes. length bytes ≤ b.length_in_block)
              (elim result [
                | none ↦ read_nodes talker c b nodes auth
                | some (rec_len, bytes) ↦
                    if leb b.length_in_block rec_len
                    then pure bytes
                    else read_nodes talker c b nodes auth
              ])
      by_result none part rest = rest
      by_result (some (rec_len, bytes)) part rest =
          if-Gives (leb b.length_in_block rec_len) (pure-Gives bytes part) rest

  pub write_nodes-IsSafe :
      (b : BlockEntry) (nodes : List ℕ) (buf auth : Bytes)
      → b.length_in_block ≤ length buf
      → IsSafe (write_nodes talker c b nodes buf auth)
  unfolding write_nodes
  write_nodes-IsSafe b [] buf auth enough = pure-IsSafe (0, 0)
  write_nodes-IsSafe b (node ∷ nodes) buf auth enough =
      if-IsSafe (node == 0) (write_nodes-IsSafe b nodes buf auth enough) (
        bind-IsSafe (ignoring-IsSafe (write_block-IsSafe b node buf auth enough)) λ result.
          bind-IsSafe (write_nodes-IsSafe b nodes buf auth enough) λ (k, l).
            elim-IsSafe result (pure-IsSafe (k, l + 1)) λ rec_len.
              if-IsSafe (leb b.length_in_block rec_len) (pure-IsSafe (k + 1, l + 1))
                (pure-IsSafe (k, l + 1)))
