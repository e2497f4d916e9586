-- ===== src/Cluster.antt =====
-- The client library, libc, and data nodes, d_node/haha, put together: a conversation hands the
-- messages of the client to `serve` of the node that has the host's name, and its reply back.
pub mod Blocks
pub mod Sent
pub mod Stored
pub mod RoundTrip
pub mod Copies
pub mod Range
pub mod Survive
pub mod Copy
mod Tests
use sbpfs.Common.{
  ℕ, Bool, true, false, ◌==◌, if◌then◌else◌, List, [], ◌∷◌, ◌++◌, length, str_eq, codes,
}
use sbpfs.Common.Run.{Run, done, stop, endless}
use sbpfs.Head.Strings.{Bytes}
use sbpfs.Trace.{Trace, sbp_seterr}
use sbpfs.Client.State.{Talk, not_sent, not_received, reply, Talker, socket_err}
use sbpfs.Client.Request.{lib_at}
use sbpfs.Node.{serve}
use sbpfs.Node.Files.{NodeEnv, DNode}

-- the data nodes by their host names
abbrev pub Nodes : Type 0
Nodes = Bytes → DNode

-- What `sbp_send` sends of some messages, one after the other: it fails on an empty one, for which
-- `send` answers 0.
abbrev pub sent : List Bytes → Bytes
sent [] = []
sent (m ∷ ms) = if length m == 0 then [] else m ++ sent ms

abbrev pub has_empty : List Bytes → Bool
has_empty [] = false
has_empty (m ∷ ms) = if length m == 0 then true else has_empty ms

abbrev pub set_node : Bytes → DNode → Nodes → Nodes
set_node host d nodes h = if str_eq h host then d else nodes h

-- the client's view of a reply: where nothing is sent, the connection is closed
abbrev pub talk_of : Bytes → Talk
talk_of [] = not_received
talk_of (b ∷ bs) = reply (b ∷ bs)

abbrev pub settled : Bytes → Trace → Nodes → Run DNode Bytes → Talk × Trace × Nodes
settled host trace nodes (done bytes d) = (talk_of bytes, trace, set_node host d nodes)
settled host trace nodes (stop c d) = (not_received, trace, set_node host d nodes)
settled host trace nodes endless = (not_received, trace, nodes)

-- the trace after an `sbp_send` that has failed
abbrev pub closed : NodeEnv → Trace → Trace
closed e trace =
    sbp_seterr e.libc.grants socket_err (codes "Connection Closed") (lib_at (codes "sbp_send") 55)
      trace

-- The client does not receive the reply where it could not send.
abbrev pub cut : Bool → Trace → Talk × Trace × Nodes → Talk × Trace × Nodes
cut true closed_trace (talk, trace, nodes) = (not_sent, closed_trace, nodes)
cut false closed_trace r = r

-- A network that loses nothing.
unfoldable pub cluster : NodeEnv → Talker Nodes
unfolding serve
cluster e host port messages trace nodes =
    cut (has_empty messages) (closed e trace)
      (settled host trace nodes (serve e (sent messages) (nodes host)))
