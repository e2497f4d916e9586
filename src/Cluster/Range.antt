-- ===== src/Cluster/Range.antt =====
-- A range of a file that is written to several data nodes is read back: `write_blocks` and
-- `read_blocks` of libc/read_write.c against the nodes of d_node/haha.
use sbpfs.Common.{
  ℕ, zero, suc, ◌+◌, ◌-◌, ◌^◌, leb, ◌<◌, ◌≤◌, ◌≡◌, ◌≢◌, ◌⊎◌, inl, inr, refl, sym, ap, ◌∙◌, arith,
  true, false, ◌==◌, List, [], ◌∷◌, ◌++◌, length, take, drop, codes, All, Bool-cases, ==→eq,
  ==-refl,
}
use sbpfs.Common.Run.{done}
use sbpfs.Head.Strings.{Bytes}
use sbpfs.Head.Search.{IsPlain}
use sbpfs.Client.State.{Client}
use sbpfs.Client.Blocks.{BlockEntry, read_block, read_nodes, read_blocks, write_nodes, write_blocks}
use sbpfs.Client.Offset.{bytes_of, length-drop_lem}
use sbpfs.Node.Files.{NodeEnv}
use sbpfs.Cluster.{Nodes, cluster}
use sbpfs.Cluster.Stored.{IsFaithful, IsPrintable, IsUser, length-take_lem, read_block-stored}
use sbpfs.Cluster.Copies.{Holds, AllHold, leb_refl, write_nodes-AllHold}

abbrev pub HasNode : List ℕ → Type 0
HasNode [] = ⊥
HasNode (node ∷ nodes) = (node ≢ 0) ⊎ HasNode nodes

-- Blocks of a byte or more with printable numbers, each with a node, and no two of the same number.
abbrev pub IsLaidOut : List BlockEntry → Type 0
IsLaidOut [] = Unit
IsLaidOut (b ∷ bs) =
    IsPrintable b
    × (0 < b.length_in_block)
    × HasNode b.d_nodes
    × All (λ b'. b.block_id ≢ b'.block_id) bs
    × IsLaidOut bs

-- Every node of every block holds its part of the buffer.
abbrev pub Stored : NodeEnv → Nodes → List BlockEntry → Bytes → Type 0
Stored e peer [] buf = Unit
Stored e peer (b ∷ bs) buf =
    AllHold e peer b (take b.length_in_block buf) b.d_nodes
    × Stored e peer bs (drop b.length_in_block buf)

take_nil : (n : ℕ) → take {A = ℕ} n [] ≡ []
take_nil zero = refl
take_nil (suc n) = refl

take-add : (n m : ℕ) (xs : Bytes) → take (n + m) xs ≡ take n xs ++ take m (drop n xs)
take-add zero m xs = ap (λ k. take k xs) (omega arith)
take-add (suc n) m [] = take_nil (suc n + m) ∙ sym (take_nil m)
take-add (suc n) m (x ∷ xs) =
    let later : suc n + m ≡ suc (n + m) = omega arith in
    ap (λ k. take k (x ∷ xs)) later ∙ ap (λ s. x ∷ s) (take-add n m xs)

AllHold-map :
    (e : NodeEnv) (peer peer' : Nodes) (b : BlockEntry) (content : Bytes) (nodes : List ℕ)
    → ((node : ℕ) → Holds e peer b content node → Holds e peer' b content node)
    → AllHold e peer b content nodes
    → AllHold e peer' b content nodes
AllHold-map e peer peer' b content [] f h = tt
AllHold-map e peer peer' b content (node ∷ nodes) f (h, hs) =
    ((λ ne. f node (h ne)), AllHold-map e peer peer' b content nodes f hs)

module _ (e : NodeEnv) (ok : IsFaithful e) (auth : Bytes) (plain_auth : All IsPlain auth) where
  pub read_nodes-skip :
      (b : BlockEntry) (node : ℕ) (nodes : List ℕ) (s : Client Nodes)
      → node ≡ 0
      → read_nodes (cluster e) e.libc b (node ∷ nodes) auth s
        ≡ read_nodes (cluster e) e.libc b nodes auth s
  unfolding read_nodes
  read_nodes-skip b node nodes s z = rw z refl

  pub read_nodes-one :
      (b : BlockEntry) (node : ℕ) (nodes : List ℕ) (content : Bytes) (s : Client Nodes)
      → (node == 0) ≡ false
      → read_block (cluster e) e.libc b node auth s ≡ done (b.length_in_block, content) s
      → read_nodes (cluster e) e.libc b (node ∷ nodes) auth s ≡ done content s
  unfolding read_nodes
  read_nodes-one b node nodes content s there one = rw (there, one, leb_refl b.length_in_block) refl

  -- The first node that is named is read.
  read_nodes-held :
      (b : BlockEntry) (nodes : List ℕ) (content : Bytes) (s : Client Nodes)
      → IsPrintable b
      → length content ≡ b.length_in_block
      → HasNode nodes
      → AllHold e s.peer b content nodes
      → IsUser s
      → read_nodes (cluster e) e.libc b nodes auth s ≡ done content s
  read_nodes-held b [] content s printable size none_there held user = absurd none_there
  read_nodes-held b (node ∷ nodes) content s printable size there (held, helds) user =
      elim (Bool-cases (node == 0)) [
        | inl z ↦
            let zero_node = ==→eq node 0 z in
            let later : HasNode nodes = elim there [
              | inl ne ↦ absurd (ne zero_node)
              | inr later ↦ later
            ] in
            read_nodes-skip b node nodes s zero_node
            ∙ read_nodes-held b nodes content s printable size later helds user
        | inr named ↦ read_nodes-one b node nodes content s named (
            read_block-stored e ok b printable node auth plain_auth content s size user
              (held (λ z. absurd (cc (named, ap (λ n. n == 0) z)))))
      ]

  -- The blocks of a buffer that the nodes hold are read, and nothing changes.
  pub read_blocks-Stored :
      (bs : List BlockEntry) (buf : Bytes) (room : ℕ) (s : Client Nodes)
      → IsLaidOut bs
      → bytes_of bs ≤ length buf
      → bytes_of bs ≤ room
      → Stored e s.peer bs buf
      → IsUser s
      → read_blocks (cluster e) e.libc bs room auth s ≡ done (bytes_of bs, take (bytes_of bs) buf) s
  unfolding read_blocks
  read_blocks-Stored [] buf room s laid enough wide held user = refl
  read_blocks-Stored (b ∷ bs) buf room s (printable, _, there, _, laid) enough wide (held, helds)
        user =
      let content = take b.length_in_block buf in
      let one =
        read_nodes-held b b.d_nodes content s printable
          (length-take_lem b.length_in_block buf (omega (arith, enough))) there held user in
      let rest =
        read_blocks-Stored bs (drop b.length_in_block buf) (room - b.length_in_block) s laid
          (length-drop_lem b.length_in_block (bytes_of bs) buf enough) (omega (arith, wide)) helds
          user in
      let inside : leb (length content) room ≡ true =
        ground (arith, wide, length-take_lem b.length_in_block buf (omega (arith, enough))) in
      rw (one, inside, rest)
        (λ i. done (bytes_of (b ∷ bs), sym (take-add b.length_in_block (bytes_of bs) buf) i) s)

module _ (e : NodeEnv) (ok : IsFaithful e) (auth : Bytes) (plain_auth : All IsPlain auth)
    (creates : (path : Bytes) → e.creates path ≡ true)
    (no_slash : (k : ℕ) → All (λ c. c ≢ b'/') (e.libc.sprintf (codes "%d") k)) where
  write_blocks-more :
      (b : BlockEntry) (bs : List BlockEntry) (buf : Bytes) (s t u : Client Nodes) (k : ℕ)
      → write_nodes (cluster e) e.libc b b.d_nodes buf auth s ≡ done (k, k) t
      → write_blocks (cluster e) e.libc bs (drop b.length_in_block buf) auth t
        ≡ done (bytes_of bs) u
      → write_blocks (cluster e) e.libc (b ∷ bs) buf auth s ≡ done (bytes_of (b ∷ bs)) u
  unfolding write_blocks
  write_blocks-more b bs buf s t u k one rest = rw (one, ==-refl k, rest) refl

  write_blocks-Stored :
      (bs : List BlockEntry) (buf : Bytes) (s : Client Nodes)
      → IsLaidOut bs
      → bytes_of bs ≤ length buf
      → IsUser s
      → (s' : Client Nodes) × (write_blocks (cluster e) e.libc bs buf auth s
          ≡ done (bytes_of bs) s')
        × IsUser s'
        × Stored e s'.peer bs buf
        × ((b' : BlockEntry) (content : Bytes) (node : ℕ)
            → b'.block_id < 2 ^ 63
            → All (λ b. b'.block_id ≢ b.block_id) bs
            → Holds e s.peer b' content node
            → Holds e s'.peer b' content node)
  unfolding write_blocks
  write_blocks-Stored [] buf s laid enough user =
      (s, refl, user, tt, λ b' content node small apart held. held)
  write_blocks-Stored (b ∷ bs) buf s (printable, some_bytes, _, apart, laid) enough user =
      let content = take b.length_in_block buf in
      let (t, k, one, w, held) =
        write_nodes-AllHold e ok auth plain_auth creates no_slash b b.d_nodes buf s printable
          (omega (arith, enough)) some_bytes user in
      let (u, rest, user', helds, keeps) =
        write_blocks-Stored bs (drop b.length_in_block buf) t laid
          (length-drop_lem b.length_in_block (bytes_of bs) buf enough) w.user in
      (
        u,
        write_blocks-more b bs buf s t u k one rest,
        user',
        (
          AllHold-map e t.peer u.peer b content b.d_nodes
              (λ node h. keeps b content node printable.block_id apart h) held,
          helds,
        ),
        λ b' content' node small (ne, nes) h.
            keeps b' content' node small nes (w.others b' content' node small ne h),
      )

  -- What `write_blocks` writes to the data nodes, `read_blocks` reads back: both return the sum of the
  -- lengths of the blocks, and the bytes that are read are the first of the buffer. The blocks have
  -- different and printable numbers, a byte or more and each a node, the C library is faithful, prints a `%d`
  -- without a slash, and files can be created; the fields of the user hold no control character.
  pub read_blocks-write_blocks :
      (bs : List BlockEntry) (buf : Bytes) (s : Client Nodes)
      → IsLaidOut bs
      → bytes_of bs ≤ length buf
      → IsUser s
      → (s' : Client Nodes) × (write_blocks (cluster e) e.libc bs buf auth s
          ≡ done (bytes_of bs) s')
        × (read_blocks (cluster e) e.libc bs (length buf) auth s'
            ≡ done (bytes_of bs, take (bytes_of bs) buf) s')
  read_blocks-write_blocks bs buf s laid enough user =
      let (s', run, user', held, _) = write_blocks-Stored bs buf s laid enough user in
      (
        s',
        run,
        read_blocks-Stored e ok auth plain_auth bs buf (length buf) s' laid enough enough held
            user',
      )
