-- ===== src/Net/Rest.antt =====
-- The second loop of `sbp_recv` of libc/lib.c receives what is missing, however `recv` splits it.
use mathlib.Core.List.{append_assoc}
use sbpfs.Common.{
  ℕ, zero, suc, ◌+◌, ◌-◌, ◌<◌, ◌≤◌, ◌≡◌, refl, sym, ap, ◌∙◌, arith, true, false, leb, ◌==◌, some,
  [], ◌++◌, length, length-append,
}
use sbpfs.Common.Run.{done}
use sbpfs.Head.Strings.{Bytes}
use sbpfs.Trace.{Trace}
use sbpfs.Net.Recv.{Receiver, recv_rest}

-- From a call on, `recv` gives a text in parts that are not empty, each for the room that is left.
pub data IsDelivered (r : Receiver) : ℕ → Bytes → Type 0 where
  at_once :
      (n : ℕ) (text : Bytes)
      → r.recv n (length text) ≡ some text
      → 0 < length text
      → IsDelivered r n text
  in_part :
      (n : ℕ) (bytes rest : Bytes)
      → r.recv n (length bytes + length rest) ≡ some bytes
      → 0 < length bytes
      → 0 < length rest
      → IsDelivered r (n + 1) rest
      → IsDelivered r n (bytes ++ rest)

module _ (r : Receiver) where
  recv_rest-last :
      (k n : ℕ) (text before : Bytes) (trace : Trace)
      → r.recv n (length text) ≡ some text
      → recv_rest r (suc k) n (length before + length text) before trace
        ≡ done (before ++ text) trace
  unfolding recv_rest
  recv_rest-last k n text before trace given =
      let room : length before + length text - length before ≡ length text = omega arith in
      let got = ap (r.recv n) room ∙ given in
      let enough : leb (length before + length text) (length (before ++ text)) ≡ true =
        ground (arith, length-append before text) in
      rw (recv_rest, got, enough) refl

  recv_rest_more :
      (k n missing : ℕ) (bytes before : Bytes) (trace : Trace)
      → r.recv n (missing - length before) ≡ some bytes
      → 0 < length bytes
      → length before + length bytes < missing
      → recv_rest r (suc k) n missing before trace
        ≡ recv_rest r k (n + 1) missing (before ++ bytes) trace
  unfolding recv_rest
  recv_rest_more k n missing bytes before trace given some_bytes more =
      let not_all : leb missing (length (before ++ bytes)) ≡ false =
        ground (arith, length-append before bytes, more) in
      let not_none : (length bytes == 0) ≡ false = ground (arith, some_bytes) in
      rw (recv_rest, given, not_all, not_none) refl

  recv_rest_from :
      (k n : ℕ) (text before : Bytes) (trace : Trace)
      → IsDelivered r n text
      → length text ≤ k
      → recv_rest r k n (length before + length text) before trace ≡ done (before ++ text) trace
  recv_rest_from zero _ _ before trace (at_once n text given some_text) enough =
      absurd (omega (arith, some_text, enough))
  recv_rest_from (suc k) _ _ before trace (at_once n text given some_text) enough =
      recv_rest-last k n text before trace given
  recv_rest_from zero _ _ before trace (in_part n bytes rest given some_bytes some_rest later)
        enough =
      absurd (omega (arith, some_bytes, enough, length-append bytes rest))
  recv_rest_from (suc k) _ _ before trace (in_part n bytes rest given some_bytes some_rest later)
        enough =
      let missing = length before + length (bytes ++ rest) in
      let room : length bytes + length rest ≡ missing - length before =
        omega (arith, length-append bytes rest) in
      let more : length before + length bytes < missing =
        omega (arith, length-append bytes rest, some_rest) in
      let fewer : length rest ≤ k = omega (arith, length-append bytes rest, some_bytes, enough) in
      let left : missing ≡ length (before ++ bytes) + length rest =
        omega (arith, length-append bytes rest, length-append before bytes) in
      recv_rest_more k n missing bytes before trace (sym (ap (r.recv n) room) ∙ given) some_bytes
        more
      ∙ (ap (λ m. recv_rest r k (n + 1) m (before ++ bytes) trace) left
          ∙ (recv_rest_from k (n + 1) rest (before ++ bytes) trace later fewer
              ∙ ap (λ t. done t trace) (append_assoc before bytes rest)))

  -- The loop of `sbp_recv` over the missing bytes ends, within as many calls as there are bytes, with
  -- the text that `recv` gives in parts, however it splits it into parts that are not empty, and
  -- keeps the trace.
  pub recv_rest-IsDelivered :
      (n : ℕ) (text : Bytes) (trace : Trace)
      → IsDelivered r n text
      → recv_rest r (length text) n (length text) [] trace ≡ done text trace
  recv_rest-IsDelivered n text trace given =
      let all : length text ≡ 0 + length text = omega arith in
      ap (λ m. recv_rest r (length text) n m [] trace) all
      ∙ recv_rest_from (length text) n text [] trace given (omega arith)
