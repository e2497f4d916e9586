-- ===== src/Cluster/Survive.antt =====
-- A block that some of its nodes have lost is read: `read_nodes`, the loop of `read_blocks` of
-- libc/read_write.c over the nodes of a block, against the nodes of d_node/haha.
use sbpfs.Common.{
  ℕ, ◌≡◌, ◌≢◌, ◌⊎◌, inl, inr, refl, sym, ap, ◌∙◌, false, ◌==◌, none, some, List, [], ◌∷◌, length,
  codes, All, Bool-cases, ==→eq,
}
use sbpfs.Common.Run.{done, stop, minus}
use sbpfs.Head.Strings.{Bytes}
use sbpfs.Head.Search.{IsPlain}
use sbpfs.Trace.{update_place}
use sbpfs.Trace.Order.{error_of}
use sbpfs.Client.State.{Client}
use sbpfs.Client.Blocks.{BlockEntry, read_block, read_nodes}
use sbpfs.Node.Files.{NodeEnv, getpath}
use sbpfs.Node.Store.{readblock-missing}
use sbpfs.Cluster.{Nodes, cluster}
use sbpfs.Cluster.Stored.{IsFaithful, IsPrintable, IsUser, host_of, read_block-stored}
use sbpfs.Cluster.RoundTrip.{read_block-missing}
use sbpfs.Cluster.Copies.{Holds, block_read}
use sbpfs.Cluster.Range.{read_nodes-skip, read_nodes-one}

-- The node has no file for the block.
abbrev pub Lacks : NodeEnv → Nodes → BlockEntry → ℕ → Type 0
Lacks e peer b node = (peer (host_of e node)).files (getpath e b.block_id) ≡ none

-- Every node that is named holds the content or lacks the block.
abbrev pub HoldOrLack : NodeEnv → Nodes → BlockEntry → Bytes → List ℕ → Type 0
HoldOrLack e peer b content nodes =
    All (λ node. node ≢ 0 → Holds e peer b content node ⊎ Lacks e peer b node) nodes

-- A node that is named holds the content.
abbrev pub OneHolds : NodeEnv → Nodes → BlockEntry → Bytes → List ℕ → Type 0
OneHolds e peer b content [] = ⊥
OneHolds e peer b content (node ∷ nodes) =
    ((node ≢ 0) × Holds e peer b content node) ⊎ OneHolds e peer b content nodes

Holds-Lacks :
    (e : NodeEnv) (peer : Nodes) (b : BlockEntry) (content : Bytes) (node : ℕ)
    → Holds e peer b content node
    → Lacks e peer b node
    → ⊥
Holds-Lacks e peer b content node held gone =
    let d = peer (host_of e node) in
    let found : none ≡ some content =
      ap block_read
        (sym (readblock-missing e b.block_id b.offset_in_block b.length_in_block d gone) ∙ held) in
    absurd (cc found)

module _ (e : NodeEnv) (ok : IsFaithful e) (auth : Bytes) (plain_auth : All IsPlain auth)
    (b : BlockEntry) (printable : IsPrintable b) (content : Bytes)
    (size : length content ≡ b.length_in_block) where
  read_nodes-next :
      (node : ℕ) (nodes : List ℕ) (s t : Client Nodes)
      → (node == 0) ≡ false
      → read_block (cluster e) e.libc b node auth s ≡ stop (minus 1) t
      → read_nodes (cluster e) e.libc b (node ∷ nodes) auth s
        ≡ read_nodes (cluster e) e.libc b nodes auth t
  unfolding read_nodes
  read_nodes-next node nodes s t there failed = rw (there, failed) refl

  -- Where every node of a block holds the content or lacks the block, and one holds it, the loop over
  -- the nodes ends with the content. The C library is faithful, the numbers of the block are
  -- printable, the content has its length, and the fields of the user hold no control character.
  pub read_nodes-survivor :
      (nodes : List ℕ) (s : Client Nodes)
      → IsUser s
      → HoldOrLack e s.peer b content nodes
      → OneHolds e s.peer b content nodes
      → (s' : Client Nodes) × (read_nodes (cluster e) e.libc b nodes auth s ≡ done content s')
  read_nodes-survivor [] s user each one = absurd one
  read_nodes-survivor (node ∷ nodes) s user (here, each) one = elim (Bool-cases (node == 0)) [
    | inl z ↦
        let zero_node = ==→eq node 0 z in
        let later : OneHolds e s.peer b content nodes = elim one [
          | inl (ne, held) ↦ absurd (ne zero_node)
          | inr later ↦ later
        ] in
        let (s', run) = read_nodes-survivor nodes s user each later in
        (s', read_nodes-skip e ok auth plain_auth b node nodes s zero_node ∙ run)
    | inr named ↦ elim (here (λ z. absurd (cc (named, ap (λ n. n == 0) z)))) [
      | inl held ↦ (
        s,
        read_nodes-one e ok auth plain_auth b node nodes content s named
            (read_block-stored e ok b printable node auth plain_auth content s size user held),
      )
      | inr gone ↦
          let t = record s {
            trace =
                error_of (codes "read_block") (codes "cannot read block") update_place ∷ s.trace;
          } in
          let later : OneHolds e s.peer b content nodes = elim one [
            | inl (_, held) ↦ absurd (Holds-Lacks e s.peer b content node held gone)
            | inr later ↦ later
          ] in
          let (s', run) =
            read_nodes-survivor nodes t (record { user = user.user; pass = user.pass }) each
              later in
          (
            s',
            read_nodes-next node nodes s t named
                  (read_block-missing e ok b printable node auth plain_auth s user gone)
                ∙ run,
          )
    ]
  ]
