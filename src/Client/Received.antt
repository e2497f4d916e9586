-- ===== src/Client/Received.antt =====
-- What the client library takes from a reply that fits its buffers.
use sbpfs.Common.{ℕ, ◌+◌, ◌≤◌, ◌≡◌, refl, false, some, List, [], ◌∷◌, length, codes}
use sbpfs.Common.Run.{pure, ◌>>◌}
use sbpfs.Head.Strings.{Bytes}
use sbpfs.Head.{Head, HeadEntry, decode_head, overruns, get_head_entry_value}
use sbpfs.Trace.{Place}
use sbpfs.Client.State.{
  cnode_service_port, Client, Talk, no_connection, not_sent, not_received, reply, Talker, Libc,
  socket_err, seterr, fail,
}
use sbpfs.Client.Request.{
  request_head, is_empty, no_copy, talk, sendrec_hostname, head_of, exchange, refused,
}
use sbpfs.Client.Files.{entry_of}
use sbpfs.Client.Safe.{IsSafe, get-IsSafe, sbp_get_uand_p-IsSafe, message_of-IsSafe}
use sbpfs.Client.Gives.{
  else-Gives, Gives, bind-Gives, pure-Gives, IsSafe-Gives, Gives-IsSafe, if-Gives, elim-Gives,
}

-- A reply with 32 entries at most, and with the bytes that its Content-Length says, which `sbp_recv`
-- waits for.
pub record IsFitting (c : Libc) (text : Bytes) : Type 0 where
  pub few : overruns text ≡ false
  pub whole :
      (head : Head) (value : Bytes)
      → decode_head text ≡ some head
      → get_head_entry_value head (codes "Content-Length") ≡ some value
      → head.head_len + c.atoll value ≤ length text

abbrev pub Fitting : Libc → Talk → Type 0
Fitting c no_connection = Unit
Fitting c not_sent = Unit
Fitting c not_received = Unit
Fitting c (reply text) = IsFitting c text

-- Peers whose replies all fit.
pub record IsFittingTalker {W : Type 0} (talker : Talker W) (c : Libc) : Type 0 where
  pub fits :
      (host : Bytes) (port : ℕ) (messages : List Bytes) (s : Client W)
      → Fitting c (talker host port messages s.trace s.peer).0

-- What the bytes behind a head are to its Content-Length.
abbrev pub IsWhole : Libc → Head → Bytes → Type 0
IsWhole c head text =
    (value : Bytes)
    → get_head_entry_value head (codes "Content-Length") ≡ some value
    → head.head_len + c.atoll value ≤ length text

module _ {W : Type 0} (talker : Talker W) (c : Libc) where
  pub fail-Gives :
      {A : Type 0} {P : A → Type 0} (type detail : Bytes) (place : Place)
      → Gives {W = W} P (fail c {A = A} type detail place)
  fail-Gives type detail place = record { ends = λ s. (refl, refl) }

  fail_after-Gives :
      {A : Type 0} {P : A → Type 0} (type detail type' detail' : Bytes) (place place' : Place)
      → Gives {W = W} P (seterr c type detail place >> fail c {A = A} type' detail' place')
  fail_after-Gives type detail type' detail' place place' = record { ends = λ s. (refl, refl) }

  pub refused-Gives :
      {A : Type 0} {P : A → Type 0} (head : Head) → Gives P (refused talker c {A = A} head)
  unfolding refused
  refused-Gives head = record { ends = λ s. (refl, refl) }

  pub entry_of-Gives :
      (name type detail : Bytes) (place : Place) (head : Head)
      → Gives
          (λ value. get_head_entry_value head name ≡ some value)
          (entry_of talker c name type detail place head)
  unfolding entry_of
  entry_of-Gives name type detail place head =
      elim-Gives (get_head_entry_value head name) (fail-Gives _ _ _) λ value. pure-Gives value

  pub head_of-Gives :
      (place : Place) (text : Bytes)
      → IsFitting c text
      → Gives (λ head. decode_head text ≡ some head) (head_of talker c place text)
  unfolding head_of
  head_of-Gives place text fit = if-Gives (is_empty text) (fail-Gives _ _ _) (
      if-Gives (no_copy c text) (fail_after-Gives _ _ _ _ _ _) (
        else-Gives (overruns text) _ fit.few
          (elim-Gives (decode_head text) (fail_after-Gives _ _ _ _ _ _) λ head. pure-Gives head)))

  talked-Gives :
      (p q r : Place) (result : Talk)
      → Fitting c result
      → Gives {W = W} {A = Bytes} (IsFitting c) (elim result [
        | no_connection ↦ fail c socket_err (codes "Could not establish a socket connection") p
        | not_sent ↦ fail c socket_err (codes "Could not send a specified length") q
        | not_received ↦ fail c socket_err (codes "Could not receive a specified length") r
        | reply rec_data ↦ pure rec_data
      ])
  talked-Gives p q r no_connection fit =
      fail-Gives socket_err (codes "Could not establish a socket connection") p
  talked-Gives p q r not_sent fit =
      fail-Gives socket_err (codes "Could not send a specified length") q
  talked-Gives p q r not_received fit =
      fail-Gives socket_err (codes "Could not receive a specified length") r
  talked-Gives p q r (reply rec_data) fit = pure-Gives rec_data fit

module _ {W : Type 0} (talker : Talker W) (c : Libc) (fitting : IsFittingTalker talker c) where
  pub talk-Gives :
      (p q r : Place) (host : Bytes) (port : ℕ) (messages : List Bytes)
      → Gives (IsFitting c) (talk talker c p q r host port messages)
  unfolding talk
  talk-Gives p q r host port messages = record {
    ends = λ s.
        let (result, trace, peer) = talker host port messages s.trace s.peer in
        (talked-Gives talker c p q r result (fitting.fits host port messages s)).ends
          (record s { trace = trace; peer = peer });
  }

  pub sendrec_hostname-Gives :
      (host : Bytes) (port : ℕ) (message : Bytes)
      → Gives (IsFitting c) (sendrec_hostname talker c host port message)
  unfolding sendrec_hostname
  sendrec_hostname-Gives host port message = talk-Gives _ _ _ host port (message ∷ [])

  -- A head, and behind it the bytes that its Content-Length says.
  pub exchange-Gives :
      (place : Place) (entries : List HeadEntry)
      → Gives (λ (head, rec_data). IsWhole c head rec_data) (exchange talker c place entries)
  unfolding exchange
  exchange-Gives place entries =
      bind-Gives (IsSafe-Gives (sbp_get_uand_p-IsSafe talker c)) λ (usr, pass) _.
        bind-Gives (IsSafe-Gives (message_of-IsSafe talker c place (request_head usr pass entries)))
          λ message _. bind-Gives (IsSafe-Gives get-IsSafe) λ s _.
            bind-Gives (sendrec_hostname-Gives s.host cnode_service_port message) λ rec_data fit.
              bind-Gives (head_of-Gives talker c place rec_data fit) λ head dec.
                pure-Gives (head, rec_data) λ value found. fit.whole head value dec found

  pub exchange-IsSafe :
      (place : Place) (entries : List HeadEntry) → IsSafe (exchange talker c place entries)
  exchange-IsSafe place entries = Gives-IsSafe (exchange-Gives place entries)
