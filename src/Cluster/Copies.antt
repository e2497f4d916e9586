-- ===== src/Cluster/Copies.antt =====
-- The copies of a block on several data nodes: `write_nodes`, the loop of `write_blocks` of
-- libc/read_write.c over the nodes, against the nodes of d_node/haha.
use mathlib.Core.Path.{subst}
use sbpfs.Common.{
  ℕ, ◌+◌, ◌^◌, ◌<◌, ◌≤◌, ◌≡◌, ◌≢◌, ◌⊎◌, inl, inr, refl, sym, ap, ◌∙◌, arith, Bool, true, false,
  ◌==◌, leb, Option, none, some, List, [], ◌∷◌, length, take, codes, str_eq, All, Bool-cases, ==→eq,
}
use sbpfs.Common.Run.{Run, done, stop, endless}
use sbpfs.Head.Strings.{Bytes}
use sbpfs.Head.Search.{IsPlain}
use sbpfs.Client.State.{Client}
use sbpfs.Client.Blocks.{BlockEntry, write_block, write_nodes}
use sbpfs.Client.Wire.{after}
use sbpfs.Node.Files.{NodeEnv, DNode, readblock, writeblock}
use sbpfs.Node.Store.{readblock-writeblock, writeblock-other, str_eq_refl, str_eq→eq}
use sbpfs.Cluster.{Nodes, cluster, set_node}
use sbpfs.Cluster.Stored.{
  IsFaithful, IsPrintable, IsUser, host_of, length-take_lem, write_block-stored,
}

-- A data node reads this content from the block.
abbrev pub HoldsAt : NodeEnv → BlockEntry → Bytes → DNode → Type 0
HoldsAt e b content d =
    readblock e b.block_id b.offset_in_block b.length_in_block d ≡ done (some content) d

abbrev pub Holds : NodeEnv → Nodes → BlockEntry → Bytes → ℕ → Type 0
Holds e peer b content node = HoldsAt e b content (peer (host_of e node))

abbrev pub block_read : Run DNode (Option Bytes) → Option Bytes
block_read (done found s) = found
block_read (stop c s) = none
block_read endless = none

abbrev state_after : DNode → Run DNode Bool → DNode
state_after d (done b s) = s
state_after d (stop c s) = s
state_after d endless = d

-- Two runs of `readblock` that found the same.
same_found :
    (e : NodeEnv) (id offset len : ℕ) (d d' : DNode) (found : Option Bytes) (content : Bytes)
    → readblock e id offset len d ≡ done found d
    → readblock e id offset len d' ≡ done found d'
    → readblock e id offset len d ≡ done (some content) d
    → readblock e id offset len d' ≡ done (some content) d'
same_found e id offset len d d' found content before behind holds =
    let same : found ≡ some content = ap block_read (sym before ∙ holds) in
    behind ∙ λ i. done (same i) d'

-- A client after a block has been written to one or more nodes: what they hold.
pub record IsWritten (e : NodeEnv) (b : BlockEntry) (content : Bytes) (s s' : Client Nodes)
    : Type 0 where
  pub user : IsUser s'
  pub again : (node : ℕ) → Holds e s.peer b content node → Holds e s'.peer b content node
  pub others :
      (b' : BlockEntry) (content' : Bytes) (node : ℕ)
      → b'.block_id < 2 ^ 63
      → b'.block_id ≢ b.block_id
      → Holds e s.peer b' content' node
      → Holds e s'.peer b' content' node

set_node-here : (host : Bytes) (d : DNode) (peer : Nodes) → set_node host d peer host ≡ d
set_node-here host d peer = rw (str_eq_refl host) refl

set_node-cases :
    (host : Bytes) (d : DNode) (peer : Nodes) (h : Bytes)
    → ((h ≡ host) × (set_node host d peer h ≡ d)) ⊎ (set_node host d peer h ≡ peer h)
set_node-cases host d peer h = elim (Bool-cases (str_eq h host)) [
  | inl same ↦ inl (str_eq→eq h host same, rw same refl)
  | inr other ↦ inr (rw other refl)
]

pub leb_refl : (n : ℕ) → leb n n ≡ true
leb_refl n = ground arith

IsWritten-none :
    (e : NodeEnv) (b : BlockEntry) (content : Bytes) (s : Client Nodes)
    → IsUser s
    → IsWritten e b content s s
IsWritten-none e b content s user = record {
  user = user;
  again = λ node held. held;
  others = λ b' content' node small ne held. held;
}

IsWritten-then :
    (e : NodeEnv) (b : BlockEntry) (content : Bytes) (s t u : Client Nodes)
    → IsWritten e b content s t
    → IsWritten e b content t u
    → IsWritten e b content s u
IsWritten-then e b content s t u v w = record {
  user = w.user;
  again = λ node held. w.again node (v.again node held);
  others = λ b' content' node small ne held.
      w.others b' content' node small ne (v.others b' content' node small ne held);
}

-- Every node that is named holds the content.
abbrev pub AllHold : NodeEnv → Nodes → BlockEntry → Bytes → List ℕ → Type 0
AllHold e peer b content nodes = All (λ node. node ≢ 0 → Holds e peer b content node) nodes

module _ (e : NodeEnv) (ok : IsFaithful e) (auth : Bytes) (plain_auth : All IsPlain auth)
    (creates : (path : Bytes) → e.creates path ≡ true)
    (no_slash : (k : ℕ) → All (λ c. c ≢ b'/') (e.libc.sprintf (codes "%d") k)) where
  printed_differ :
      (m n : ℕ)
      → m < 2 ^ 63
      → n < 2 ^ 63
      → e.libc.sprintf (codes "%lld") m ≡ e.libc.sprintf (codes "%lld") n
      → m ≡ n
  printed_differ m n hm hn same =
      sym (ok.atoll_long m hm) ∙ (ap e.libc.atoll same ∙ ok.atoll_long n hn)

  -- A write to a block of a node leaves what its other blocks hold.
  other_kept :
      (b b' : BlockEntry) (content content' : Bytes) (d d' : DNode)
      → b.block_id < 2 ^ 63
      → b'.block_id < 2 ^ 63
      → b'.block_id ≢ b.block_id
      → writeblock e b.block_id b.offset_in_block (length content) content d ≡ done true d'
      → HoldsAt e b' content' d
      → HoldsAt e b' content' d'
  other_kept b b' content content' d d' small small' ne run held =
      let (d'', found, run', before, behind) =
        writeblock-other e b.block_id b.offset_in_block content d b'.block_id b'.offset_in_block
          b'.length_in_block (creates _) no_slash
          (printed_differ b'.block_id b.block_id small' small) ne in
      let same : d'' ≡ d' = ap (state_after d) (sym run' ∙ run) in
      subst (HoldsAt e b' content') same (
        same_found e b'.block_id b'.offset_in_block b'.length_in_block d d'' found content' before
          behind held)

  write_block-IsWritten :
      (b : BlockEntry) (node : ℕ) (buf : Bytes) (s : Client Nodes)
      → IsPrintable b
      → b.length_in_block ≤ length buf
      → 0 < b.length_in_block
      → IsUser s
      → (s' : Client Nodes) × (write_block (cluster e) e.libc b node buf auth s
          ≡ done b.length_in_block s')
        × IsWritten e b (take b.length_in_block buf) s s'
        × Holds e s'.peer b (take b.length_in_block buf) node
  write_block-IsWritten b node buf s printable enough some_bytes user =
      let host = host_of e node in
      let d = s.peer host in
      let content = take b.length_in_block buf in
      let size : length content ≡ b.length_in_block =
        length-take_lem b.length_in_block buf enough in
      let (d', run, back) =
        readblock-writeblock e b.block_id b.offset_in_block content d (creates _) in
      let peer = set_node host d' s.peer in
      let stored : HoldsAt e b content d' =
        (λ i. readblock e b.block_id b.offset_in_block (sym size i) d') ∙ back in
      (
        after s s.trace peer,
        write_block-stored e ok b printable node auth plain_auth buf s d' user
            ((λ i. writeblock e b.block_id b.offset_in_block (sym size i) content d) ∙ run) enough
            some_bytes,
        record {
          user = record { user = user.user; pass = user.pass };
          again = λ node' held. elim (set_node-cases host d' s.peer (host_of e node')) [
            | inl (_, here) ↦ subst (HoldsAt e b content) (sym here) stored
            | inr there ↦ subst (HoldsAt e b content) (sym there) held
          ];
          others = λ b' content' node' small ne held.
              elim (set_node-cases host d' s.peer (host_of e node')) [
                | inl (same, here) ↦ subst (HoldsAt e b' content') (sym here) (
                    other_kept b b' content content' d d' printable.block_id small ne run
                      (subst (HoldsAt e b' content') (ap s.peer same) held))
                | inr there ↦ subst (HoldsAt e b' content') (sym there) held
              ];
        },
        subst (HoldsAt e b content) (sym (set_node-here host d' s.peer)) stored,
      )

  write_nodes-skip :
      (b : BlockEntry) (node : ℕ) (nodes : List ℕ) (buf : Bytes) (s : Client Nodes)
      → node ≡ 0
      → write_nodes (cluster e) e.libc b (node ∷ nodes) buf auth s
        ≡ write_nodes (cluster e) e.libc b nodes buf auth s
  unfolding write_nodes
  write_nodes-skip b node nodes buf s z = rw z refl

  write_nodes-one :
      (b : BlockEntry) (node : ℕ) (nodes : List ℕ) (buf : Bytes) (s t u : Client Nodes) (k : ℕ)
      → (node == 0) ≡ false
      → write_block (cluster e) e.libc b node buf auth s ≡ done b.length_in_block t
      → write_nodes (cluster e) e.libc b nodes buf auth t ≡ done (k, k) u
      → write_nodes (cluster e) e.libc b (node ∷ nodes) buf auth s ≡ done (k + 1, k + 1) u
  unfolding write_nodes
  write_nodes-one b node nodes buf s t u k there one rest =
      rw (there, one, rest, leb_refl b.length_in_block) refl

  pub write_nodes-AllHold :
      (b : BlockEntry) (nodes : List ℕ) (buf : Bytes) (s : Client Nodes)
      → IsPrintable b
      → b.length_in_block ≤ length buf
      → 0 < b.length_in_block
      → IsUser s
      → (s' : Client Nodes) × (k : ℕ) × (write_nodes (cluster e) e.libc b nodes buf auth s
          ≡ done (k, k) s')
        × IsWritten e b (take b.length_in_block buf) s s'
        × AllHold e s'.peer b (take b.length_in_block buf) nodes
  unfolding write_nodes
  write_nodes-AllHold b [] buf s printable enough some_bytes user =
      (s, 0, refl, IsWritten-none e b (take b.length_in_block buf) s user, tt)
  write_nodes-AllHold b (node ∷ nodes) buf s printable enough some_bytes user =
      let content = take b.length_in_block buf in
      elim (Bool-cases (node == 0)) [
        | inl z ↦
            let zero_node = ==→eq node 0 z in
            let (u, k, run, w, held) =
              write_nodes-AllHold b nodes buf s printable enough some_bytes user in
            (
              u,
              k,
              write_nodes-skip b node nodes buf s zero_node ∙ run,
              w,
              ((λ ne. absurd (ne zero_node)), held),
            )
        | inr there ↦
            let (t, one, v, first) =
              write_block-IsWritten b node buf s printable enough some_bytes user in
            let (u, k, run, w, held) =
              write_nodes-AllHold b nodes buf t printable enough some_bytes v.user in
            (
              u,
              k + 1,
              write_nodes-one b node nodes buf s t u k there one run,
              IsWritten-then e b content s t u v w,
              ((λ _. w.again node first), held),
            )
      ]
