-- ===== src/Net/Tests.antt =====
-- The theorems about the transport of libc/lib.c at small inputs.
use sbpfs.Common.{ℕ, ◌≡◌, refl, arith, Bool, true, ltb, some, List, [], ◌∷◌}
use sbpfs.Common.Run.{ℤ, pos}
use sbpfs.Net.{sbp_send}
use sbpfs.Head.Strings.{Bytes}
use sbpfs.Head.{crlf}
use sbpfs.Common.Run.{done}
use sbpfs.Common.{◌==◌, if◌then◌else◌, ◌++◌, codes}
use sbpfs.Net.Recv.{Receiver, recv_rest, sbp_recv}
use sbpfs.Net.Rest.{IsDelivered, at_once, in_part, recv_rest-IsDelivered}
use sbpfs.Net.Send.{IsSent, sbp_send-IsSent}

-- a socket that takes two bytes at a time
abbrev two_each : ℕ → List ℕ → ℤ
two_each n text = pos 2

sbp_send_run : sbp_send two_each (1 ∷ 2 ∷ 3 ∷ []) ≡ some (pos 0, 1 ∷ 2 ∷ 3 ∷ [])
unfolding sbp_send
sbp_send_run = refl

sbp_send-IsSent_example :
    (c : ℤ) × (sent : List ℕ) × (sbp_send two_each (1 ∷ 2 ∷ 3 ∷ []) ≡ some (c, sent))
    × IsSent two_each (1 ∷ 2 ∷ 3 ∷ []) c sent
sbp_send-IsSent_example = sbp_send-IsSent two_each (1 ∷ 2 ∷ 3 ∷ [])

-- the first three slots are used
abbrev three_used : ℕ → Bool
three_used i = ltb i 3

abbrev start : Bytes
start = codes "A" ++ (crlf ++ (codes "Content-Length: 2" ++ (crlf ++ crlf)))

-- The head comes in one call, and the body byte by byte.
abbrev bytewise : Receiver
bytewise = record {
  recv = λ n room.
      if n == 0 then some start else if n == 1 then some (codes "h") else some (codes "i");
  grants = λ _. true;
  atoll = λ _. 2;
  lengths_text = λ m n. [];
}

sbp_recv_run : sbp_recv bytewise 3 (λ _. 0) [] ≡ done (start ++ codes "hi" ++ 0 ∷ []) []
unfolding sbp_recv
sbp_recv_run = refl

hi-IsDelivered : IsDelivered bytewise 1 (codes "hi")
hi-IsDelivered =
    in_part 1 (codes "h") (codes "i") refl (omega arith) (omega arith)
      (at_once 2 (codes "i") refl (omega arith))

recv_rest-IsDelivered_example : recv_rest bytewise 2 1 2 [] [] ≡ done (codes "hi") []
recv_rest-IsDelivered_example = recv_rest-IsDelivered bytewise 1 (codes "hi") [] hi-IsDelivered
