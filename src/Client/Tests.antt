-- ===== src/Client/Tests.antt =====
-- The theorems about the client library, libc, with a control node that answers `OK` to everything.
use sbpfs.Common.{
  ℕ, ◌+◌, ◌≤◌, ◌≡◌, ◌⊎◌, refl, arith, ◌==◌, if◌then◌else◌, false, length, Option, none, some, [],
  ◌∷◌, ◌++◌, codes,
}
use sbpfs.Common.Run.{pos, negsuc, minus, done, stop}
use sbpfs.Head.Strings.{Bytes}
use sbpfs.Head.{crlf}
use sbpfs.Client.State.{FileDesc, Client, Talker, reply, t_dir, t_file, set_fd}
use sbpfs.Client.Blocks.{sbp_read, sbp_write}
use sbpfs.Client.Files.{sbp_stat, sbp_close, sbp_seek}
use sbpfs.Client.Names.{sbp_mkdir, sbp_rmdir, sbp_chmod, sbp_chown, sbp_move, sbp_remove}
use sbpfs.Client.Safe.{Outcome}
use sbpfs.Client.Frame.{EndsZeroOr, names-EndsZeroOr, sbp_close-slots}
use sbpfs.Client.Offset.{NamesAtMost, Transferred, sbp_read_or_write-Transferred}
use sbpfs.Client.Seek.{landing, sought, sbp_seek-landing}
use sbpfs.Node.Tests.{unary, unary_libc}
use mathlib.Core.Path.{subst}
use sbpfs.Client.Received.{IsFitting, IsFittingTalker}
use sbpfs.Client.Blocks.{ask_blocks}
use sbpfs.Head.{Head, decode_head, overruns, get_head_entry_value}

-- a reply with a block: its number is 5, its length 32, and its node 1
abbrev answer : Bytes
answer =
    codes "SBPFS/1.0 OK"
    ++ (crlf
        ++ (codes "Content-Length: "
            ++ (unary 32
                ++ (crlf
                    ++ (crlf
                        ++ 5 ∷ 0 ∷ 0 ∷ 0 ∷ 0 ∷ 0 ∷ 0 ∷ 0 ∷ 0 ∷ 0 ∷ 0 ∷ 0 ∷ 32 ∷ 0 ∷ 0 ∷ 0 ∷ 1 ∷ 0
                          ∷ 0 ∷ 0 ∷ 0 ∷ 0 ∷ 0 ∷ 0 ∷ 0 ∷ 0 ∷ 0 ∷ 0 ∷ 0 ∷ 0 ∷ 0 ∷ 0 ∷ [])))))

-- the peers count the conversations
abbrev agreeable : Talker ℕ
agreeable host port messages trace n = (reply answer, trace, n + 1)

abbrev ValueFits : Head → Option Bytes → Type 0
ValueFits head none = Unit
ValueFits head (some value) = head.head_len + length value ≤ length answer

abbrev HeadFits : Option Head → Type 0
HeadFits none = Unit
HeadFits (some head) = ValueFits head (get_head_entry_value head (codes "Content-Length"))

answer_fits : HeadFits (decode_head answer)
unfolding decode_head get_head_entry_value
answer_fits = omega arith

answer_few : overruns answer ≡ false
unfolding overruns
answer_few = refl

answer-IsFitting : IsFitting unary_libc answer
answer-IsFitting = record {
  few = answer_few;
  whole = λ head value dec found. subst (ValueFits head) found (subst HeadFits dec answer_fits);
}

agreeable-IsFittingTalker : IsFittingTalker agreeable unary_libc
agreeable-IsFittingTalker = record { fits = λ host port messages s. answer-IsFitting }

abbrev file : FileDesc
file = record {
  server_fd = 4;
  offset = 10;
  oflag = 0;
  length = 0;
  type = t_file;
  filename = codes "/f";
  auth_code = codes "auth";
}

abbrev dir : FileDesc
dir = record file { type = t_dir }

abbrev client : Client ℕ
client = record {
  fds = λ i. if i == 0 then some file else if i == 1 then some dir else none;
  user = codes "me";
  pass = codes "secret";
  host = codes "h";
  trace = [];
  peer = 0;
}

names-EndsZeroOr_example :
    EndsZeroOr client (sbp_mkdir agreeable unary_libc (codes "/a") client)
    × EndsZeroOr client (sbp_rmdir agreeable unary_libc (codes "/a") client)
    × EndsZeroOr client (sbp_chmod agreeable unary_libc (codes "/a") 5 client)
    × EndsZeroOr client (sbp_chown agreeable unary_libc (codes "/a") (codes "b") client)
    × EndsZeroOr client (sbp_move agreeable unary_libc (codes "/a") (codes "b") client)
    × EndsZeroOr client (sbp_remove agreeable unary_libc (codes "/a") client)
    × Outcome client (sbp_stat agreeable unary_libc (codes "/a") client)
names-EndsZeroOr_example =
    names-EndsZeroOr agreeable unary_libc agreeable-IsFittingTalker (codes "/a") (codes "b") 5
      client

sbp_close-slots_example :
    ((s' : Client ℕ) × (sbp_close agreeable unary_libc (pos 0) client ≡ done (pos 0) s')
      × (s'.fds ≡ client.fds))
    ⊎ ((s' : Client ℕ) × (sbp_close agreeable unary_libc (pos 0) client ≡ stop (minus 1) s')
        × (s'.fds ≡ (set_fd 0 none client).fds))
sbp_close-slots_example =
    sbp_close-slots agreeable unary_libc agreeable-IsFittingTalker 0 file client refl refl refl

asked_write : NamesAtMost 32 (ask_blocks agreeable unary_libc file 32 (codes "WRITE") client)
unfolding ask_blocks
asked_write = omega arith

asked_read : NamesAtMost 40 (ask_blocks agreeable unary_libc file 40 (codes "READ") client)
unfolding ask_blocks
asked_read = omega arith

sbp_read_or_write-Transferred_example :
    Transferred agreeable unary_libc agreeable-IsFittingTalker
      (λ ret. ret)
      0
      file
      32
      (codes "WRITE")
      client
      (sbp_write agreeable unary_libc (pos 0) (unary 32) client)
    × Transferred agreeable unary_libc agreeable-IsFittingTalker
        (λ (ret, bytes). ret)
        0
        file
        40
        (codes "READ")
        client
        (sbp_read agreeable unary_libc (pos 0) 40 client)
sbp_read_or_write-Transferred_example =
    sbp_read_or_write-Transferred agreeable unary_libc agreeable-IsFittingTalker 0 file (unary 32)
      40 client refl refl asked_write asked_read

sbp_seek-landing_example :
    sbp_seek (pos 0) (negsuc 3) client ≡ sought 0 file client (landing 10 (negsuc 3))
sbp_seek-landing_example =
    sbp_seek-landing 0 file client (negsuc 3) refl (omega arith) (omega arith)
