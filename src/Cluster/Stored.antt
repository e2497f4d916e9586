-- ===== src/Cluster/Stored.antt =====
-- One conversation with a data node that goes well: `write_block` and `read_block` of
-- libc/read_write.c against `serve` of d_node/haha/d_node.c.
use mathlib.Core.List.{append-nil}
use sbpfs.Head.{make_head, decode_head}
use sbpfs.Head.Literal.{is_plain}
use sbpfs.Client.Request.{request_head}
use sbpfs.Client.Blocks.{block_request}
use sbpfs.Node.Store.{str_eq→eq}
use sbpfs.Common.{
  str_eq, Bool-cases, inl, inr, ℕ, zero, suc, ◌+◌, ◌^◌, ◌≤◌, ◌<◌, arith, leb, ne→==-false, ◌∷◌, ◌≡◌,
  refl, sym, ap, ◌∙◌, true, some, [], ◌++◌, length, take, drop, codes, All,
}
use sbpfs.Common.Run.{done}
use sbpfs.Head.Strings.{Bytes, starts_with}
use sbpfs.Head.Search.{IsPlain, All-append}
use sbpfs.Head.Literal.{is_plain-IsPlain}
use sbpfs.Head.{get_head_entry_value}
use sbpfs.Net.{get_dnode_hostname}
use sbpfs.Client.State.{Client, dnode_service_port}
use sbpfs.Client.Blocks.{BlockEntry, read_block, write_block}
use sbpfs.Client.Wire.{after, read_block-answer, write_block-answer}
use sbpfs.Node.{ok_head, head_message, serve}
use sbpfs.Node.Files.{NodeEnv, DNode, readblock, writeblock}
use sbpfs.Node.Store.{take-all_lem}
use sbpfs.Cluster.{Nodes, cluster, set_node, settled}
use sbpfs.Cluster.Sent.{make_head-some_bytes, cluster-one, cluster-two}
use sbpfs.Cluster.Blocks.{
  serve-write, serve-read, ok_head-IsReply, decode_head-block_head, drop-length-append,
}

-- What the program relies on in the C library: memory is granted, `%d` and `%lld` print no control
-- character, and `atoi` and `atoll` read what they print.
pub record IsFaithful (e : NodeEnv) : Type 0 where
  pub granted : (n : ℕ) → e.libc.grants n ≡ true
  pub plain_int : (n : ℕ) → n < 2 ^ 31 → All IsPlain (e.libc.sprintf (codes "%d") n)
  pub plain_long : (n : ℕ) → n < 2 ^ 63 → All IsPlain (e.libc.sprintf (codes "%lld") n)
  pub atoi_int : (n : ℕ) → n < 2 ^ 31 → e.atoi (e.libc.sprintf (codes "%d") n) ≡ n
  pub atoll_int : (n : ℕ) → n < 2 ^ 31 → e.libc.atoll (e.libc.sprintf (codes "%d") n) ≡ n
  pub atoll_long : (n : ℕ) → n < 2 ^ 63 → e.libc.atoll (e.libc.sprintf (codes "%lld") n) ≡ n

-- A block whose numbers are printed as they are.
pub record IsPrintable (b : BlockEntry) : Type 0 where
  pub block_id : b.block_id < 2 ^ 63
  pub offset : b.offset_in_block < 2 ^ 31
  pub length : b.length_in_block < 2 ^ 31

-- A client whose name and password are sent as they are.
pub record IsUser {W : Type 0} (s : Client W) : Type 0 where
  pub user : All IsPlain s.user
  pub pass : All IsPlain s.pass

-- the host of a node
abbrev pub host_of : NodeEnv → ℕ → Bytes
host_of e node = get_dnode_hostname (e.libc.sprintf (codes "%u")) node

pub length-take_lem : (n : ℕ) (buf : Bytes) → n ≤ length buf → length (take n buf) ≡ n
length-take_lem zero buf h = refl
length-take_lem (suc n) [] h = absurd (omega (arith, h))
length-take_lem (suc n) (x ∷ buf) h = omega (arith, length-take_lem n buf (omega (arith, h)))

-- A body of a length behind a head of `n` bytes.
leb-body :
    (text : Bytes) (n k : ℕ)
    → n ≤ length text
    → length (drop n text) ≡ k
    → leb (n + k) (length text) ≡ true
leb-body text zero k inside h = ground (arith, h)
leb-body [] (suc n) k inside h = absurd (omega (arith, inside))
leb-body (x ∷ text) (suc n) k inside h = ground (arith, leb-body text n k (omega (arith, inside)) h)

set_node-at : (host : Bytes) (peer : Nodes) (h : Bytes) → set_node host (peer host) peer h ≡ peer h
set_node-at host peer h = elim (Bool-cases (str_eq h host)) [
  | inl same ↦ rw same (ap peer (sym (str_eq→eq h host same)))
  | inr other ↦ rw other refl
]

pub set_node-same : (host : Bytes) (peer : Nodes) → set_node host (peer host) peer ≡ peer
set_node-same host peer = λ i h. set_node-at host peer h i

module _ (e : NodeEnv) (ok : IsFaithful e) (b : BlockEntry) (printable : IsPrintable b) (node : ℕ)
    (auth : Bytes) (plain_auth : All IsPlain auth) where
  -- The message of a request of a user for the block is decoded, with any body behind it.
  pub decode_head-request :
      (method content_len body : Bytes) (s : Client Nodes)
      → is_plain method ≡ true
      → All IsPlain content_len
      → IsUser s
      → (bytes : Bytes) × (make_head
            (request_head s.user s.pass (block_request e.libc auth method b content_len))
          ≡ some (length bytes, bytes))
        × (decode_head (bytes ++ body)
            ≡ some
                (record (request_head s.user s.pass
                  (block_request e.libc auth method b content_len)) { head_len = length bytes }))
  decode_head-request method content_len body s m c user =
      decode_head-block_head (codes "Client_" ++ s.user) s.pass auth method
        (e.libc.sprintf (codes "%lld") b.block_id) (e.libc.sprintf (codes "%d") b.offset_in_block)
        (e.libc.sprintf (codes "%d") b.length_in_block) content_len body
        (All-append IsPlain (codes "Client_") s.user (is_plain-IsPlain (codes "Client_") refl)
          user.user)
        user.pass plain_auth m (ok.plain_long _ printable.block_id)
        (ok.plain_int _ printable.offset) (ok.plain_int _ printable.length) c

  pub write_block-stored :
      (buf : Bytes) (s : Client Nodes) (d' : DNode)
      → IsUser s
      → writeblock e b.block_id b.offset_in_block b.length_in_block
          (take b.length_in_block buf)
          (s.peer (host_of e node))
        ≡ done true d'
      → b.length_in_block ≤ length buf
      → 0 < b.length_in_block
      → write_block (cluster e) e.libc b node buf auth s
        ≡ done b.length_in_block (after s s.trace (set_node (host_of e node) d' s.peer))
  unfolding starts_with
  write_block-stored buf s d' user run enough some_bytes =
      let num = e.libc.sprintf (codes "%lld") b.block_id in
      let off = e.libc.sprintf (codes "%d") b.offset_in_block in
      let len = e.libc.sprintf (codes "%d") b.length_in_block in
      let body = take b.length_in_block buf ++ [] in
      let (bytes, made, dec) =
        decode_head-request (codes "WRITE") len body s refl (ok.plain_int _ printable.length)
          user in
      let r = ok_head-IsReply (codes "0") [] (is_plain-IsPlain (codes "0") refl) in
      let content : drop (length bytes) (bytes ++ body) ≡ take b.length_in_block buf =
        drop-length-append bytes body ∙ append-nil (take b.length_in_block buf) in
      let run' =
        (λ i.
          writeblock e (ok.atoll_long b.block_id printable.block_id i)
            (ok.atoi_int b.offset_in_block printable.offset i)
            (ok.atoi_int b.length_in_block printable.length i) (content i)
            (s.peer (host_of e node)))
        ∙ run in
      let served =
        serve-write e (bytes ++ body) (codes "Client_" ++ s.user) s.pass auth num off len len
          (length bytes) (s.peer (host_of e node)) d' dec run' in
      write_block-answer (cluster e) e.libc ok.granted b node buf auth s (length bytes) bytes
        (head_message (ok_head (codes "0")) []) (record (ok_head (codes "0")) { head_len = r.n })
        s.trace (set_node (host_of e node) d' s.peer) made
        (cluster-two e (host_of e node) dnode_service_port s.trace s.peer bytes
            (take b.length_in_block buf) (make_head-some_bytes _ _ bytes made)
            (ne→==-false (length (take b.length_in_block buf)) 0 (λ z.
              absurd (omega (arith, z, some_bytes, length-take_lem b.length_in_block buf enough))))
          ∙ (ap (settled (host_of e node) s.trace s.peer) served ∙ λ i.
              (r.talked i, s.trace, set_node (host_of e node) d' s.peer)))
        r.answer refl (ground (arith, enough))

  pub read_block-stored :
      (block : Bytes) (s : Client Nodes)
      → length block ≡ b.length_in_block
      → IsUser s
      → readblock e b.block_id b.offset_in_block b.length_in_block (s.peer (host_of e node))
        ≡ done (some block) (s.peer (host_of e node))
      → read_block (cluster e) e.libc b node auth s ≡ done (b.length_in_block, block) s
  unfolding starts_with get_head_entry_value
  read_block-stored block s size user run =
      let d = s.peer (host_of e node) in
      let num = e.libc.sprintf (codes "%lld") b.block_id in
      let off = e.libc.sprintf (codes "%d") b.offset_in_block in
      let len = e.libc.sprintf (codes "%d") b.length_in_block in
      let (bytes, made, dec) =
        decode_head-request (codes "READ") (codes "0") [] s refl (is_plain-IsPlain (codes "0") refl)
          user in
      let r = ok_head-IsReply len block (ok.plain_int _ printable.length) in
      let run' =
        (λ i.
          readblock e (ok.atoll_long b.block_id printable.block_id i)
            (ok.atoi_int b.offset_in_block printable.offset i)
            (ok.atoi_int b.length_in_block printable.length i) d)
        ∙ run in
      let served : serve e (bytes ++ []) d ≡ done (head_message (ok_head len) block) d =
        serve-read e (bytes ++ []) _ s.pass auth num off len (codes "0") block (length bytes) d dec
          (ok.granted _) run'
        ∙ ap (λ n. done (head_message (ok_head (e.libc.sprintf (codes "%d") n)) block) d)
            (ok.atoi_int b.length_in_block printable.length) in
      let taken : take b.length_in_block (drop r.n (head_message (ok_head len) block)) ≡ block =
        ap (take b.length_in_block) r.body_at
        ∙ (ap (λ n. take n block) (sym size) ∙ take-all_lem block) in
      let peer = set_node (host_of e node) d s.peer in
      read_block-answer (cluster e) e.libc ok.granted b node auth s (length bytes) bytes
        (head_message (ok_head len) block) len (record (ok_head len) { head_len = r.n }) s.trace
        peer made
        (cluster-one e (host_of e node) dnode_service_port s.trace s.peer bytes
            (make_head-some_bytes _ _ bytes made)
          ∙ (ap (settled (host_of e node) s.trace s.peer) served ∙ λ i.
              (r.talked i, s.trace, peer)))
        r.answer refl refl (ok.atoll_int b.length_in_block printable.length)
        (leb-body (head_message (ok_head len) block) r.n b.length_in_block r.inside
          (ap length r.body_at ∙ size))
      ∙ λ i.
          done (b.length_in_block, taken i)
            (after s s.trace (set_node-same (host_of e node) s.peer i))
