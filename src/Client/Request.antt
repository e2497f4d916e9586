-- ===== src/Client/Request.antt =====
-- The exchange of a request and a reply, which every operation of the client library goes through: the
-- macros `SBP_PREPARE_REQUEST`, `SBP_SEND_AND_PROCESS_REPLY`, `SBP_PROCESS_RESULT` and
-- `SBP_PROCESS_ERR` of libc/lib.h, and `sbp_getUandP` of libc/login.c.
use sbpfs.Common.{
  ℕ, zero, suc, ◌+◌, ◌==◌, Bool, true, false, not, if◌then◌else◌, none, some, List, [], ◌∷◌, ◌++◌,
  length, drop, codes,
}
use sbpfs.Common.Run.{ℤ, pos, minus, Cmd, stop, pure, return_if, ◌>>=◌, ◌>>◌, get, put_state}
use sbpfs.Head.Strings.{Bytes, strstr, starts_with}
use sbpfs.Head.{Head, HeadEntry, crlf, header_flag, colon, make_head, decode_head, overruns}
use sbpfs.Trace.{Place, sbp_update_err}
use sbpfs.Client.State.{
  Client, no_connection, not_sent, not_received, reply, Talker, Libc, socket_err, data_err,
  head_err, mem_err, crash, at, seterr, fail, max_username_len, max_password_len,
  cnode_service_port,
}

abbrev pub protocol : Bytes
protocol = codes "SBPFS/1.0"

abbrev pub request_ok : Bytes
request_ok = codes "SBPFS/1.0 OK"

abbrev pub request_err : Bytes
request_err = codes "SBPFS/1.0 ERROR"

abbrev pub ent : Bytes → Bytes → HeadEntry
ent n val = record { name = n; value = val }

-- The entries of `METHOD`, `ARGC`, the arguments and `CONTENT_LEN`.
abbrev pub method_entries : Bytes → Bytes → List HeadEntry → Bytes → List HeadEntry
method_entries method argc args content_len =
    ent (codes "Method") method
    ∷ ent (codes "Argc") argc
    ∷ (args ++ ent (codes "Content-Length") content_len ∷ [])

-- The user, the password, and the entries behind them.
abbrev pub request_head : Bytes → Bytes → List HeadEntry → Head
request_head usr pass entries = record {
  head_len = 0;
  title = protocol;
  entrys = ent (codes "User") (codes "Client_" ++ usr) ∷ ent (codes "Password") pass ∷ entries;
}

-- Which call of `seterr` a `decode_head` that fails has made, by detail and line: in the loop over the
-- lines, and before it.
entries_fault : ℕ → Bytes → Bytes × ℕ
unfolding strstr
entries_fault zero text = (codes "Could not find line separator", 280)
entries_fault (suc k) text = elim (strstr crlf text) [
  | none ↦ (codes "Could not find line separator", 280)
  | some (line, rest) ↦ elim (strstr colon line) [
    | none ↦ (codes "Could not find colon", 291)
    | some _ ↦ entries_fault k (drop 2 rest)
  ]
]

unfoldable pub decode_fault : Bytes → Bytes × ℕ
unfolding strstr entries_fault
decode_fault text = elim (strstr header_flag text) [
  | none ↦ (codes "Could not find the end flag of HEAD", 260)
  | some _ ↦ elim (strstr crlf text) [
    | none ↦ (codes "Could not find line separator", 273)
    | some (_, rest) ↦ entries_fault (length text + 1) (drop 2 rest)
  ]
]

-- Whether `decode_head` finds the end of the head and gets no memory for a copy of it.
unfoldable pub no_copy : Libc → Bytes → Bool
unfolding strstr
no_copy c text = elim (strstr header_flag text) [
  | none ↦ false
  | some (before, _) ↦ not (c.grants (length before + 4 + 1))
]

-- `strlen(rec_data) == 0`
abbrev pub is_empty : Bytes → Bool
is_empty [] = true
is_empty (b ∷ bs) = b == 0

abbrev pub lib_at : Bytes → ℕ → Place
lib_at func line = at (codes "lib.c") func line

module _ {W : Type 0} (talker : Talker W) (c : Libc) where
  -- the name and the password, each in a buffer of its own
  unfoldable pub sbp_get_uand_p : Cmd (Client W) (Bytes × Bytes)
  sbp_get_uand_p = do
    return_if (not (c.grants (max_username_len + 1))) (minus 1)
    return_if (not (c.grants (max_password_len + 1))) (minus 1)
    s ← get
    pure (s.user, s.pass)

  -- The message of a head, or the error exit.
  unfoldable pub message_of : Place → Head → Cmd (Client W) Bytes
  unfolding make_head
  message_of place head = elim (make_head head) [
    | some (len, bytes) ↦ if c.grants len then pure bytes else (do
      seterr c mem_err (codes "Malloc failed") (lib_at (codes "make_head") 324)
      fail c head_err (codes "Could not make head") place)
    | none ↦ (do
      seterr c head_err (codes "There is too many entrys") (lib_at (codes "make_head") 311)
      fail c head_err (codes "Could not make head") place)
  ]

  -- The reply of a host, or the error exit, with a place for each of its calls of `seterr`.
  unfoldable pub talk : Place → Place → Place → Bytes → ℕ → List Bytes → Cmd (Client W) Bytes
  talk no_skt no_send no_recv host port messages = do
    s ← get
    let (result, trace, peer) = talker host port messages s.trace s.peer
    put_state (record s { trace = trace; peer = peer })
    elim result [
      | no_connection ↦ fail c socket_err (codes "Could not establish a socket connection") no_skt
      | not_sent ↦ fail c socket_err (codes "Could not send a specified length") no_send
      | not_received ↦ fail c socket_err (codes "Could not receive a specified length") no_recv
      | reply rec_data ↦ pure rec_data
    ]

  -- one message to a host, and its reply
  unfoldable pub sendrec_hostname : Bytes → ℕ → Bytes → Cmd (Client W) Bytes
  unfolding talk
  sendrec_hostname host port message =
      let place = lib_at (codes "sendrec_hostname") in
      talk (place 197) (place 202) (place 207) host port (message ∷ [])

  -- The head of a reply, or the error exit.
  unfoldable pub head_of : Place → Bytes → Cmd (Client W) Head
  unfolding decode_head decode_fault overruns no_copy
  head_of place rec_data =
      if is_empty rec_data
      then fail c socket_err (codes "Could not receive a specified length") place
      else if no_copy c rec_data
      then (do
        seterr c mem_err (codes "Malloc failed") (lib_at (codes "decode_head") 266)
        fail c data_err (codes "Can not decode SBPFS_HEAD") place)
      else if overruns rec_data
      then crash
      else elim (decode_head rec_data) [
        | some head ↦ pure head
        | none ↦ (do
          let (detail, line) = decode_fault rec_data
          seterr c head_err detail (lib_at (codes "decode_head") line)
          fail c data_err (codes "Can not decode SBPFS_HEAD") place)
      ]

  -- `SBP_PREPARE_REQUEST` up to `SBP_SEND_AND_PROCESS_REPLY`, for the entries of a method: the head of
  -- the reply, and the reply.
  unfoldable pub exchange : Place → List HeadEntry → Cmd (Client W) (Head × Bytes)
  unfolding sbp_get_uand_p message_of sendrec_hostname head_of
  exchange place entries = do
    (usr, pass) ← sbp_get_uand_p
    message ← message_of place (request_head usr pass entries)
    s ← get
    rec_data ← sendrec_hostname s.host cnode_service_port message
    head ← head_of place rec_data
    pure (head, rec_data)

  -- `sbp_update_err(&head); goto err_exit3;`
  unfoldable pub refused : {A : Type 0} → Head → Cmd (Client W) A
  unfolding sbp_update_err
  refused head s = stop (minus 1) (record s { trace = sbp_update_err c.grants head s.trace })

  -- `strncmp` of the title with `REQUEST_OK` and `REQUEST_ERR`: it goes on, or to the error exit.
  unfoldable pub process_result : Place → Head → Cmd (Client W) (Unit {0})
  unfolding starts_with refused
  process_result place head =
      if starts_with request_ok head.title
      then pure tt
      else if starts_with request_err head.title
      then refused head
      else fail c head_err (codes "Could not identify data received") place

  -- An operation that only sends its arguments and looks at the title of the reply.
  unfoldable pub simple_call : Place → Bytes → Bytes → List HeadEntry → Cmd (Client W) ℤ
  unfolding exchange process_result
  simple_call place method argc args = do
    (head, rec_data) ← exchange place (method_entries method argc args (codes "0"))
    process_result place head
    pure (pos 0)
