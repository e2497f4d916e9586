-- ===== src/Cluster/RoundTrip.antt =====
-- `write_block` and then `read_block` of libc/read_write.c, against the data nodes of d_node/haha.

use sbpfs.Common.{
  ℕ, ◌<◌, arith, ◌≡◌, refl, sym, ap, ◌∙◌, true, none, some, [], ◌∷◌, ◌++◌, length, take, codes, All,
}
use sbpfs.Common.Run.{done, stop, minus}
use sbpfs.Head.Strings.{Bytes, starts_with}
use sbpfs.Head.Search.{IsPlain}
use sbpfs.Head.Literal.{is_plain-IsPlain}
use sbpfs.Client.State.{Client}
use sbpfs.Client.Blocks.{BlockEntry, read_block, write_block}
use sbpfs.Client.Wire.{after, read_block-refused}
use sbpfs.Node.{err_head, head_message}
use sbpfs.Node.Files.{NodeEnv, getpath, readblock, writeblock}
use sbpfs.Node.Store.{readblock-writeblock, readblock-missing, str_eq_refl, take-all_lem}
use sbpfs.Trace.{update_place}
use sbpfs.Trace.Order.{error_of, sbp_update_err-reply}
use sbpfs.Client.Request.{request_err}
use sbpfs.Cluster.{Nodes, cluster, set_node, settled}
use sbpfs.Cluster.Blocks.{serve-missing, err_head-IsReply}
use sbpfs.Client.State.{dnode_service_port}
use sbpfs.Cluster.Sent.{make_head-some_bytes, cluster-one}
use sbpfs.Cluster.Stored.{
  IsFaithful, IsPrintable, IsUser, host_of, set_node-same, decode_head-request, write_block-stored,
  read_block-stored,
}

module _ (e : NodeEnv) (ok : IsFaithful e) (b : BlockEntry) (printable : IsPrintable b) (node : ℕ)
    (auth : Bytes) (plain_auth : All IsPlain auth) where
  -- Where the node has no file for the block, `read_block` returns -1, and the trace gets the error
  -- that the node reports in its reply, with the place of `sbp_update_err`. The C library is faithful,
  -- the numbers of the block are printable, and the fields of the user hold no control character.
  pub read_block-missing :
      (s : Client Nodes)
      → IsUser s
      → (s.peer (host_of e node)).files (getpath e b.block_id) ≡ none
      → read_block (cluster e) e.libc b node auth s
        ≡ stop (minus 1) (record s {
          trace = error_of (codes "read_block") (codes "cannot read block") update_place ∷ s.trace;
        })
  unfolding starts_with
  read_block-missing s user gone =
      let d = s.peer (host_of e node) in
      let num = e.libc.sprintf (codes "%lld") b.block_id in
      let off = e.libc.sprintf (codes "%d") b.offset_in_block in
      let len = e.libc.sprintf (codes "%d") b.length_in_block in
      let (bytes, made, dec) =
        decode_head-request e ok b printable node auth plain_auth (codes "READ") (codes "0") [] s
          refl (is_plain-IsPlain (codes "0") refl) user in
      let type = codes "read_block" in
      let detail = codes "cannot read block" in
      let r = err_head-IsReply type detail refl refl in
      let run =
        (λ i.
          readblock e (ok.atoll_long b.block_id printable.block_id i)
            (ok.atoi_int b.offset_in_block printable.offset i)
            (ok.atoi_int b.length_in_block printable.length i) d)
        ∙ readblock-missing e b.block_id b.offset_in_block b.length_in_block d gone in
      let served =
        serve-missing e (bytes ++ []) _ s.pass auth num off len (codes "0") (length bytes) d dec
          (ok.granted _) run in
      let peer = set_node (host_of e node) d s.peer in
      read_block-refused (cluster e) e.libc ok.granted b node auth s (length bytes) bytes
        (head_message (err_head type detail) []) (record (err_head type detail) { head_len = r.n })
        s.trace peer made
        (cluster-one e (host_of e node) dnode_service_port s.trace s.peer bytes
            (make_head-some_bytes _ _ bytes made)
          ∙ (ap (settled (host_of e node) s.trace s.peer) served ∙ λ i.
              (r.talked i, s.trace, peer)))
        r.answer refl refl
      ∙ (ap (λ t. stop (minus 1) (after s t peer))
            (sbp_update_err-reply e.libc.grants request_err type detail r.n [] _ s.trace ok.granted
              tt)
          ∙ λ i. stop (minus 1) (
              after s (error_of type detail update_place ∷ s.trace)
                (set_node-same (host_of e node) s.peer i)))

  -- What a client writes to a block of a data node with `write_block`, `read_block` reads back from
  -- that node: both calls end well, and the head and the data pass through `make_head`,
  -- `decode_head`, `serve`, the files of the node and its replies. The C library is faithful, the numbers
  -- of the block are printable, the fields of the user hold no control character, and the file of
  -- a block that is not there can be created.
  read_block-write_block :
      (buf : Bytes) (s : Client Nodes)
      → length buf ≡ b.length_in_block
      → IsUser s
      → e.creates (getpath e b.block_id) ≡ true
      → 0 < b.length_in_block
      → (s' : Client Nodes) × (write_block (cluster e) e.libc b node buf auth s
          ≡ done b.length_in_block s')
        × (read_block (cluster e) e.libc b node auth s' ≡ done (b.length_in_block, buf) s')
  read_block-write_block buf s size user creates some_bytes =
      let host = host_of e node in
      let (d', run, back) =
        readblock-writeblock e b.block_id b.offset_in_block buf (s.peer host) creates in
      let s' = after s s.trace (set_node host d' s.peer) in
      let here : set_node host d' s.peer host ≡ d' = rw (str_eq_refl host) refl in
      let all : take b.length_in_block buf ≡ buf =
        ap (λ n. take n buf) (sym size) ∙ take-all_lem buf in
      (
        s',
        write_block-stored e ok b printable node auth plain_auth buf s d' user
            ((λ i. writeblock e b.block_id b.offset_in_block (sym size i) (all i) (s.peer host))
              ∙ run)
            (omega (arith, size)) some_bytes,
        read_block-stored e ok b printable node auth plain_auth buf s' size
            (record { user = user.user; pass = user.pass })
            ((λ i. readblock e b.block_id b.offset_in_block (sym size i) (here i))
              ∙ (back ∙ λ i. done (some buf) (sym here i))),
      )
