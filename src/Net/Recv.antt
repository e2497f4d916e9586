-- ===== src/Net/Recv.antt =====
-- `sbp_recv` of libc/lib.c: a message is received up to the end of its head, and then as far as the
-- head says. The buffer is not cleared before, so what it holds behind the bytes that have come is
-- looked at as well.
use sbpfs.Common.{
  ℕ, zero, suc, ◌+◌, ◌-◌, ◌^◌, leb, ◌==◌, Bool, not, if◌then◌else◌, Option, none, some, [], ◌∷◌,
  ◌++◌, length, codes,
}
use sbpfs.Common.Mem.{Mem, put, u64_mod}
use sbpfs.Common.Run.{minus, Cmd, done, stop, endless, pure, ◌>>=◌, ◌>>◌}
use sbpfs.Head.Strings.{Bytes, strstr}
use sbpfs.Head.{crlf, header_flag, content_len, get_missing_len}
use sbpfs.Trace.{Trace, Place, sbp_seterr}

abbrev pub buf_size : ℕ
buf_size = 4096

-- the bytes of a buffer, of which there are `n`
abbrev bytes_at : ℕ → Mem → ℕ → Bytes
bytes_at zero m a = []
bytes_at (suc n) m a = m a ∷ bytes_at n m (a + 1)

-- What is outside: what `recv` gives at its call number for the room that it has, none for a
-- negative result; which `malloc` is granted; `atoll`; and the text of the two numbers.
pub record Receiver : Type 0 where
  pub recv : ℕ → ℕ → Option Bytes
  pub grants : ℕ → Bool
  pub atoll : Bytes → ℕ
  pub lengths_text : ℕ → ℕ → Bytes

abbrev in_lib : Bytes → ℕ → Place
in_lib func line = record { file = codes "lib.c"; line = line; func = func }

-- The call of `seterr` of a `get_missing_len` that fails, by detail and line.
unfoldable pub missing_fault : Bytes → Option (Bytes × ℕ)
unfolding strstr
missing_fault buf = elim (strstr header_flag buf) [
  | none ↦ some (codes "Could not find the end flag of HEAD", 221)
  | some _ ↦ elim (strstr content_len buf) [
    | none ↦ some (codes "Content-Length", 228)
    | some (_, start) ↦ elim (strstr crlf start) [
      | none ↦ some (codes "Could not find line separator", 232)
      | some _ ↦ none
    ]
  ]
]

module _ (r : Receiver) where
  -- `seterr`, and the error exit
  abbrev fail_at : {A : Type 0} → Bytes → Bytes → ℕ → Cmd Trace A
  fail_at type detail line trace =
      stop (minus 1) (sbp_seterr r.grants type detail (in_lib (codes "sbp_recv") line) trace)

  -- what `get_missing_len` adds to the trace
  abbrev noted : Option (Bytes × ℕ) → Cmd Trace (Unit {0})
  noted none trace = done tt trace
  noted (some (detail, line)) trace = done tt (
      sbp_seterr r.grants (codes "SBPFS HEAD Error") detail (in_lib (codes "get_missing_len") line)
        trace)

  -- `while(missing_bytes)`, with the bytes that it has received
  unfoldable pub recv_rest : ℕ → ℕ → ℕ → Bytes → Cmd Trace Bytes
  recv_rest zero n missing rest = λ _. endless
  recv_rest (suc k) n missing rest = elim (r.recv n (missing - length rest)) [
    | none ↦ fail_at (codes "Socket Error") (codes "Could not receive a specified length") 128
    | some bytes ↦
        let more = recv_rest k (n + 1) missing (rest ++ bytes) in
        if leb missing (length (rest ++ bytes))
        then pure (rest ++ bytes)
        else if length bytes == 0
        then fail_at (codes "Socket Error") (codes "Could not receive a specified length") 140
        else more
  ]

  -- The message in a buffer of its own, from what has come and what is missing.
  unfoldable pub complete : ℕ → ℕ → Mem → ℕ → ℕ → ℕ → Cmd Trace Bytes
  unfolding recv_rest
  complete k n buf numbytes received_len missing =
      if not (r.grants (missing + received_len + 1))
      then fail_at (codes "Memory Error") (r.lengths_text missing numbytes) 115
      else (do
        rest ← (if missing == 0 then pure [] else recv_rest k n missing [])
        pure (bytes_at received_len buf 0 ++ (rest ++ 0 ∷ [])))

  -- One round after `recv`: what has come may have the end of the head, and then its length.
  abbrev round : ℕ → ℕ → Mem → ℕ → ℕ → Cmd Trace Bytes → Cmd Trace Bytes
  round k n buf numbytes received_len more =
      let text = bytes_at (buf_size + 1) buf 0 in
      let missing = get_missing_len r.atoll text received_len in
      noted (missing_fault text)
      >> (if leb (2 ^ 63) missing
          then (if leb buf_size received_len
              then fail_at (codes "Socket Error") (codes "Could not receive a specified length") 103
              else more)
          else complete k n buf numbytes received_len missing)

  -- `while(1)`. A negative result is added to the length like a number of bytes; where nothing has
  -- come before, the buffer is left at its start.
  unfoldable pub recv_loop : ℕ → ℕ → Mem → ℕ → Cmd Trace Bytes
  unfolding complete missing_fault get_missing_len put
  recv_loop zero n buf received_len = λ _. endless
  recv_loop (suc k) n buf received_len = elim (r.recv n (buf_size - received_len)) [
    | none ↦ elim received_len [
      | zero ↦ λ _. endless
      | suc m ↦ round k (n + 1) buf (u64_mod - 1) m (recv_loop k (n + 1) buf m)
    ]
    | some bytes ↦
        let buf' = put buf received_len bytes in
        let received_len' = received_len + length bytes in
        if length bytes == 0
        then fail_at (codes "Socket Error") (codes "Could not receive a specified length") 94
        else round k (n + 1) buf' (length bytes) received_len'
            (recv_loop k (n + 1) buf' received_len')
  ]

  -- The message with a 0 behind it, for a number of rounds and what the buffer holds at first.
  unfoldable pub sbp_recv : ℕ → Mem → Cmd Trace Bytes
  unfolding recv_loop put
  sbp_recv rounds junk = recv_loop rounds 0 (put junk buf_size (0 ∷ [])) 0
