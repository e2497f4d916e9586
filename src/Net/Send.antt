-- ===== src/Net/Send.antt =====
-- What `sbp_send` of libc/lib.c sends.
use mathlib.Core.List.{append-nil, append_assoc}
use sbpfs.Common.{
  ℕ, zero, suc, Bool, ◌+◌, ◌≤◌, ◌<◌, ◌≡◌, ◌⊎◌, inl, inr, refl, ap, ◌∙◌, arith, Option, some,
  Bool-cases, true, false, leb, List, [], ◌∷◌, ◌++◌, length, take, drop,
}
use sbpfs.Common.Run.{ℤ, pos, negsuc, minus}
use sbpfs.Net.{send_loop, sbp_send, sent_part}

take-drop : (n : ℕ) (xs : List ℕ) → take n xs ++ drop n xs ≡ xs
take-drop zero xs = refl
take-drop (suc n) [] = refl
take-drop (suc n) (x ∷ xs) = ap (λ s. x ∷ s) (take-drop n xs)

take-all : (n : ℕ) (xs : List ℕ) → length xs ≤ n → take n xs ≡ xs
take-all zero [] h = refl
take-all zero (x ∷ xs) h = absurd (omega arith)
take-all (suc n) [] h = refl
take-all (suc n) (x ∷ xs) h = ap (λ s. x ∷ s) (take-all n xs (omega arith))

length-drop : (n : ℕ) (x : ℕ) (xs : List ℕ) → length (drop (suc n) (x ∷ xs)) ≤ length xs
length-drop zero x xs = omega arith
length-drop (suc n) x [] = omega arith
length-drop (suc n) x (y ∷ xs) = omega (arith, length-drop n y xs)

-- `numbytes > 0`
abbrev pub positive : ℤ → Bool
positive (negsuc m) = false
positive (pos zero) = false
positive (pos (suc m)) = true

-- How a send ends: all bytes have been taken, or a call for those that are left did not take any.
pub record IsSent (send : ℕ → List ℕ → ℤ) (text : List ℕ) (c : ℤ) (sent : List ℕ) : Type 0 where
  pub rest : List ℕ
  pub whole : sent ++ rest ≡ text
  pub code :
      ((c ≡ pos 0) × (rest ≡ []))
      ⊎ (c ≡ minus 1) × ((call : ℕ) × (positive (send call rest) ≡ false))

broken :
    (send : ℕ → List ℕ → ℤ) (text : List ℕ) (call : ℕ)
    → positive (send call text) ≡ false
    → IsSent send text (minus 1) []
broken send text call h = record { rest = text; whole = refl; code = inr (refl, (call, h)) }

IsSent-after :
    (send : ℕ → List ℕ → ℤ) (text : List ℕ) (n : ℕ) (c : ℤ) (sent : List ℕ)
    → IsSent send (drop n text) c sent
    → IsSent send text c (take n text ++ sent)
IsSent-after send text n c sent w = record {
  rest = w.rest;
  whole =
      append_assoc (take n text) sent w.rest
      ∙ (ap (λ s. take n text ++ s) w.whole ∙ take-drop n text);
  code = w.code;
}

shorter :
    (k m : ℕ) (text : List ℕ)
    → length text < suc k
    → leb (length text) (suc m) ≡ false
    → length (drop (suc m) text) < k
shorter k m [] f p = ground arith
shorter k m (x ∷ xs) f p = omega (arith, length-drop m x xs)

sent_part-IsSent :
    (send : ℕ → List ℕ → ℤ) (answer : ℤ) (n k : ℕ) (text : List ℕ)
    (go : List ℕ → Option (ℤ × List ℕ))
    → send n text ≡ answer
    → length text < suc k
    → ((rest : List ℕ)
        → length rest < k
        → (c : ℤ) × (sent : List ℕ) × (go rest ≡ some (c, sent)) × IsSent send rest c sent)
    → (c : ℤ) × (sent : List ℕ) × (sent_part answer text go ≡ some (c, sent))
      × IsSent send text c sent
sent_part-IsSent send (negsuc m) n k text go e fuel later =
    (minus 1, [], refl, broken send text n (ap positive e))
sent_part-IsSent send (pos zero) n k text go e fuel later =
    (minus 1, [], refl, broken send text n (ap positive e))
sent_part-IsSent send (pos (suc m)) n k text go e fuel later =
    elim (Bool-cases (leb (length text) (suc m))) [
      | inl done_all ↦ (
        pos 0,
        take (suc m) text,
        rw done_all,
        record {
          rest = [];
          whole = append-nil (take (suc m) text) ∙ take-all (suc m) text (ground arith);
          code = inl (refl, refl);
        },
      )
      | inr part ↦
          let (c, sent, run, w) = later (drop (suc m) text) (shorter k m text fuel part) in
          (c, take (suc m) text ++ sent, rw (part, run), IsSent-after send text (suc m) c sent w)
    ]

send_loop-IsSent :
    (send : ℕ → List ℕ → ℤ) (k n : ℕ) (text : List ℕ)
    → length text < k
    → (c : ℤ) × (sent : List ℕ) × (send_loop send k n text ≡ some (c, sent))
      × IsSent send text c sent
unfolding send_loop
send_loop-IsSent send zero n text fuel = absurd (omega arith)
send_loop-IsSent send (suc k) n text fuel =
    sent_part-IsSent send (send n text) n k text _ refl fuel
      (λ rest lt. send_loop-IsSent send k (n + 1) rest lt)

-- `sbp_send` ends after at most one call more than there are bytes, whatever the socket answers. It
-- returns 0 when the socket has taken all bytes in order, and -1 only when a call for the bytes that
-- are left answered 0 or less; the socket has then taken the bytes before them.
pub sbp_send-IsSent :
    (send : ℕ → List ℕ → ℤ) (text : List ℕ)
    → (c : ℤ) × (sent : List ℕ) × (sbp_send send text ≡ some (c, sent)) × IsSent send text c sent
unfolding sbp_send
sbp_send-IsSent send text = send_loop-IsSent send (length text + 1) 0 text (omega arith)
