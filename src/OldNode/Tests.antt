-- ===== src/OldNode/Tests.antt =====
-- The theorems about the earlier data node, d_node/tcpserver.c, at concrete heads.
use sbpfs.Common.{
  ℕ, ◌+◌, ◌^◌, ◌≤◌, ◌≡◌, refl, arith, false, ltb, some, [], ◌∷◌, ◌++◌, length, codes, drop, All,
}
use sbpfs.Common.Run.{endless}
use sbpfs.Head.Strings.{Bytes}
use sbpfs.Head.{Head, crlf, make_head, decode_head, entries_len, put_entries}
use sbpfs.Head.Search.{IsClean}
use sbpfs.Head.Literal.{is_plain-IsPlain, IsClean-entry}
use sbpfs.Client.Request.{ent}
use sbpfs.Node.Files.{NodeEnv}
use sbpfs.Node.Tests.{unary_env, unary_libc, empty_node}
use sbpfs.OldNode.Blocks.{Server}
use sbpfs.OldNode.{Peer, Built, build_headr, build_headw, build_headp}
use sbpfs.OldNode.Replies.{decode_head-build_headp, build_heads-sized}
use sbpfs.OldNode.Deaf.{decode_head-deaf}
use sbpfs.OldNode

-- memory below 2^63 bytes
abbrev env : NodeEnv
env = record unary_env { libc = record unary_libc { grants = λ n. ltb n (2 ^ 63) } }

env-refuses : (n : ℕ) → 2 ^ 63 ≤ n → env.libc.grants n ≡ false
env-refuses n h = ground arith

abbrev request : Head
request = record {
  head_len = 0;
  title = codes "SBPFS/1.0";
  entrys = ent (codes "Arg0") (codes "3") ∷ [];
}

request-IsClean : All IsClean request.entrys
request-IsClean =
    (IsClean-entry (codes "Arg0") (codes "3") refl refl (is_plain-IsPlain (codes "3") refl), tt)

abbrev request_bytes : Bytes
request_bytes = codes "SBPFS/1.0" ++ (crlf ++ (codes "Arg0: 3" ++ (crlf ++ crlf)))

request_made : make_head request ≡ some (22, request_bytes)
unfolding make_head entries_len put_entries
request_made = refl

abbrev server : Server
server = record {
  node = empty_node;
  databuf = λ _. 0;
  sbphead = record { head_len = 0; title = []; entrys = [] };
  rec_buf = [];
  req_len = 0;
  send_buf = [];
}

decode_head-deaf_example : OldNode.decode_head env (request_bytes ++ codes "abc") server ≡ endless
decode_head-deaf_example =
    decode_head-deaf env env-refuses request 22 request_bytes (codes "abc") server
      (is_plain-IsPlain (codes "SBPFS/1.0") refl) request-IsClean (omega arith) (omega arith)
      request_made (omega arith)

decode_head-build_headp_example :
    (b : Built) × (n : ℕ) × (build_headp request (codes "list") ≡ some b)
    × (b.allocated ≡ length b.written)
    × (decode_head b.written ≡ some (record request { head_len = n }))
    × (drop n b.written ≡ codes "list")
decode_head-build_headp_example =
    decode_head-build_headp request (codes "list") (omega arith)
      (is_plain-IsPlain (codes "SBPFS/1.0") refl) request-IsClean

build_heads-sized_example :
    (make_head (record {
      head_len = 0;
      title = codes "SBPFS OK";
      entrys = ent (codes "Length") (codes "3") ∷ [];
    })
      ≡ some (
        (build_headw (codes "SBPFS OK") (ent (codes "Length") (codes "3"))).allocated,
        (build_headw (codes "SBPFS OK") (ent (codes "Length") (codes "3"))).written,
      ))
    × (length (build_headr (λ _. 65) (codes "SBPFS OK") (ent (codes "Length") (codes "3"))).written
        ≡ (build_headr (λ _. 65) (codes "SBPFS OK") (ent (codes "Length") (codes "3"))).allocated
          + 1)
build_heads-sized_example =
    build_heads-sized (λ _. 65) (codes "SBPFS OK") (ent (codes "Length") (codes "3"))
