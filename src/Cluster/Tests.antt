-- ===== src/Cluster/Tests.antt =====
-- The theorems about a client and its data nodes, with numbers printed in unary.
use sbpfs.Common.{
  List, some, inl, inr, if◌then◌else◌, str_eq, ℕ, zero, suc, ◌≡◌, refl, arith, none, [], ◌∷◌, codes,
  All, length,
}
use sbpfs.Common.Run.{done, stop, minus, pos}
use sbpfs.Head.Strings.{Bytes}
use sbpfs.Head.Search.{IsPlain}
use sbpfs.Head.Literal.{is_plain-IsPlain}
use sbpfs.Trace.{update_place}
use sbpfs.Trace.Order.{error_of}
use sbpfs.Client.State.{Client}
use sbpfs.Client.Blocks.{BlockEntry, read_block, read_nodes, read_blocks, write_blocks}
use sbpfs.Node.Listing.{empty_listing}
use sbpfs.Node.Files.{File, NodeEnv, DNode, block_file_size, getpath, readblock, bytes_from}
use sbpfs.Node.{serve}
use sbpfs.Node.Report.{send_copy}
use sbpfs.Cluster.Copy.{serve-send_copy}
use sbpfs.Node.Tests.{unary, unary_env, empty_node, length-unary, unary-no_slash}
use sbpfs.Cluster.{Nodes, cluster}
use sbpfs.Cluster.Stored.{IsFaithful, IsPrintable, IsUser, host_of}
use sbpfs.Cluster.Copies.{Holds}
use sbpfs.Cluster.Range.{IsLaidOut, read_blocks-write_blocks}
use sbpfs.Cluster.Survive.{Lacks, read_nodes-survivor}
use sbpfs.Net.{get_dnode_hostname}
use sbpfs.Cluster.RoundTrip.{read_block-missing}

unary-IsPlain : (n : ℕ) → All IsPlain (unary n)
unary-IsPlain zero = tt
unary-IsPlain (suc n) = ((omega arith, omega arith), unary-IsPlain n)

unary-IsFaithful : IsFaithful unary_env
unary-IsFaithful = record {
  granted = λ _. refl;
  plain_int = λ n _. unary-IsPlain n;
  plain_long = λ n _. unary-IsPlain n;
  atoi_int = λ n _. length-unary n;
  atoll_int = λ n _. length-unary n;
  atoll_long = λ n _. length-unary n;
}

abbrev block : BlockEntry
block = record { block_id = 3; offset_in_block = 5; length_in_block = 2; d_nodes = 7 ∷ 0 ∷ 0 ∷ [] }

abbrev client : Client Nodes
client = record {
  fds = λ _. none;
  user = codes "me";
  pass = codes "secret";
  host = codes "h";
  trace = [];
  peer = λ _. empty_node;
}

client-IsUser : IsUser client
client-IsUser = record {
  user = is_plain-IsPlain (codes "me") refl;
  pass = is_plain-IsPlain (codes "secret") refl;
}

block-IsPrintable : IsPrintable block
block-IsPrintable = record { block_id = omega arith; offset = omega arith; length = omega arith }

abbrev blocks : List BlockEntry
blocks =
    record { block_id = 3; offset_in_block = 5; length_in_block = 2; d_nodes = 7 ∷ 8 ∷ 0 ∷ [] }
    ∷ record { block_id = 4; offset_in_block = 0; length_in_block = 1; d_nodes = 0 ∷ 9 ∷ 0 ∷ [] }
    ∷ []

blocks-IsLaidOut : IsLaidOut blocks
blocks-IsLaidOut = (
  record { block_id = omega arith; offset = omega arith; length = omega arith },
  omega arith,
  inl (omega arith),
  (omega arith, tt),
  (
    record { block_id = omega arith; offset = omega arith; length = omega arith },
    omega arith,
    inr (inl (omega arith)),
    tt,
    tt,
  ),
)

read_blocks-write_blocks_example :
    (s' : Client Nodes) × (write_blocks
        (cluster unary_env)
        unary_env.libc
        blocks
        (8 ∷ 9 ∷ 6 ∷ [])
        (codes "auth")
        client
      ≡ done 3 s')
    × (read_blocks (cluster unary_env) unary_env.libc blocks 3 (codes "auth") s'
        ≡ done (3, 8 ∷ 9 ∷ 6 ∷ []) s')
read_blocks-write_blocks_example =
    read_blocks-write_blocks unary_env unary-IsFaithful (codes "auth")
      (is_plain-IsPlain (codes "auth") refl) (λ _. refl) unary-no_slash blocks (8 ∷ 9 ∷ 6 ∷ [])
      client blocks-IsLaidOut (omega arith) client-IsUser

-- a node that has block 3
abbrev full_node : DNode
unfolding getpath
full_node = record {
  files = λ p.
      if str_eq p (getpath unary_env 3) then some (record { size = 100; bytes = λ a. a }) else none;
  blocklist = unary 3 ∷ [];
  blolist = [];
  listing = empty_listing;
}

-- only node 8 has it
abbrev survivors : Client Nodes
unfolding get_dnode_hostname
survivors = record client {
  peer = λ h. if str_eq h (host_of unary_env 8) then full_node else empty_node;
}

node_8-Holds : Holds unary_env survivors.peer block (5 ∷ 6 ∷ []) 8
unfolding readblock bytes_from getpath full_node survivors get_dnode_hostname
node_8-Holds = refl

node_7-Lacks : Lacks unary_env survivors.peer block 7
unfolding survivors get_dnode_hostname
node_7-Lacks = refl

survivors-IsUser : IsUser survivors
unfolding survivors
survivors-IsUser = record { user = client-IsUser.user; pass = client-IsUser.pass }

read_nodes-survivor_example :
    (s' : Client Nodes) × (read_nodes
        (cluster unary_env)
        unary_env.libc
        block
        (7 ∷ 8 ∷ [])
        (codes "auth")
        survivors
      ≡ done (5 ∷ 6 ∷ []) s')
read_nodes-survivor_example =
    read_nodes-survivor unary_env unary-IsFaithful (codes "auth")
      (is_plain-IsPlain (codes "auth") refl) block block-IsPrintable (5 ∷ 6 ∷ []) refl (7 ∷ 8 ∷ [])
      survivors survivors-IsUser ((λ _. inr node_7-Lacks), ((λ _. inl node_8-Holds), tt))
      (inr (inl (omega arith, node_8-Holds)))

read_block-missing_example :
    read_block (cluster unary_env) unary_env.libc block 7 (codes "auth") client
    ≡ stop (minus 1) (record client {
      trace = error_of (codes "read_block") (codes "cannot read block") update_place ∷ [];
    })
read_block-missing_example =
    read_block-missing unary_env unary-IsFaithful block block-IsPrintable 7 (codes "auth")
      (is_plain-IsPlain (codes "auth") refl) client client-IsUser refl

-- numbers in unary, where the text 0 is read as 0
abbrev atoi_with_zero : Bytes → ℕ
atoi_with_zero s = if str_eq s (codes "0") then 0 else length s

abbrev zero_env : NodeEnv
zero_env = record unary_env { atoi = atoi_with_zero }

atoi_with_zero-unary : (n : ℕ) → atoi_with_zero (unary n) ≡ n
atoi_with_zero-unary zero = refl
atoi_with_zero-unary (suc n) = length-unary (suc n)

zero-IsFaithful : IsFaithful zero_env
zero-IsFaithful = record {
  granted = λ _. refl;
  plain_int = λ n _. unary-IsPlain n;
  plain_long = λ n _. unary-IsPlain n;
  atoi_int = λ n _. atoi_with_zero-unary n;
  atoll_int = λ n _. length-unary n;
  atoll_long = λ n _. length-unary n;
}

abbrev block_file : File
block_file = record { size = 100; bytes = λ a. a }

abbrev sender : DNode
sender = record empty_node { files = λ _. some block_file }

serve-send_copy_example :
    (message : Bytes) × (content : Bytes) × (to' : DNode) × (send_copy zero_env 3 sender
      ≡ done (message, pos 0) sender)
    × (readblock zero_env 3 0 block_file_size sender ≡ done (some content) sender)
    × (serve zero_env message empty_node ≡ done [] to')
    × (readblock zero_env 3 0 block_file_size to' ≡ done (some content) to')
serve-send_copy_example =
    serve-send_copy zero_env zero-IsFaithful refl 3 (omega arith) refl sender empty_node block_file
      refl
