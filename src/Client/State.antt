-- ===== src/Client/State.antt =====
-- The state of the client library: its globals in libc/global.c and the descriptors of libc/lib.h. What
-- stands outside the library: the peers that it talks to, and the C library.
use sbpfs.Common.{ℕ, Bool, true, false, ◌==◌, Option, List, codes, if◌then◌else◌}
use sbpfs.Common.Run.{minus, Cmd, done, stop, endless, Run}
use sbpfs.Head.Strings.{Bytes}
use sbpfs.Trace.{Trace, Place, sbp_seterr}

abbrev pub t_dir : ℕ
t_dir = 1

abbrev pub t_file : ℕ
t_file = 2

abbrev pub redundancy : ℕ
redundancy = 2

abbrev pub cnode_service_port : ℕ
cnode_service_port = 9000

abbrev pub dnode_service_port : ℕ
dnode_service_port = 9010

abbrev pub auth_code_len : ℕ
auth_code_len = 32

abbrev pub max_username_len : ℕ
max_username_len = 16

abbrev pub max_password_len : ℕ
max_password_len = 32

abbrev pub max_hostname_len : ℕ
max_hostname_len = 32

pub record FileDesc : Type 0 where
  pub server_fd : ℕ
  pub offset : ℕ
  pub oflag : ℕ
  pub length : ℕ
  pub type : ℕ
  pub filename : Bytes
  pub auth_code : Bytes

-- `fds` holds `none` for NULL. `peer` is the state of what the library talks to.
pub record Client (W : Type 0) : Type 0 where
  pub fds : ℕ → Option FileDesc
  pub user : Bytes
  pub pass : Bytes
  pub host : Bytes
  pub trace : Trace
  pub peer : W

-- How `sbp_connect`, the calls of `sbp_send` and `sbp_recv` that follow it end.
pub data Talk : Type 0 where
  no_connection not_sent not_received : Talk
  reply : Bytes → Talk

-- A conversation with a host at a port: the messages are sent, and one is received. It may add to the
-- trace, and it changes the peers.
abbrev pub Talker : Type 0 → Type 0
Talker W = Bytes → ℕ → List Bytes → Trace → W → Talk × Trace × W

-- What the C library supplies: which `malloc` is granted, `sprintf` of a number, and `atoll`.
pub record Libc : Type 0 where
  pub grants : ℕ → Bool
  pub sprintf : Bytes → ℕ → Bytes
  pub atoll : Bytes → ℕ

abbrev pub socket_err : Bytes
socket_err = codes "Socket Error"

abbrev pub mem_err : Bytes
mem_err = codes "Memory Error"

abbrev pub data_err : Bytes
data_err = codes "Data Error"

abbrev pub head_err : Bytes
head_err = codes "SBPFS HEAD Error"

abbrev pub req_err : Bytes
req_err = codes "Request Error"

-- a place in a file and a function of it
abbrev pub at : Bytes → Bytes → ℕ → Place
at file func line = record { file = file; line = line; func = func }

module _ {W : Type 0} (c : Libc) where
  -- the macro `seterr`
  abbrev pub seterr : Bytes → Bytes → Place → Cmd (Client W) (Unit {0})
  seterr type detail place s =
      done tt (record s { trace = sbp_seterr c.grants type detail place s.trace })

  -- `seterr` and the error exit of a function that returns -1
  abbrev pub fail : {A : Type 0} → Bytes → Bytes → Place → Cmd (Client W) A
  fail type detail place s =
      stop (minus 1) (record s { trace = sbp_seterr c.grants type detail place s.trace })

  -- `if ((p = malloc(size)) == NULL) { seterr(MEM_ERR,MALLOC); error exit }`
  abbrev pub malloc_or : ℕ → Place → Cmd (Client W) (Unit {0})
  malloc_or size place s =
      if c.grants size
      then done tt s
      else stop (minus 1)
          (record s { trace = sbp_seterr c.grants mem_err (codes "Malloc failed") place s.trace })

abbrev pub cleaned : {S A : Type 0} → (S → S) → Run S A → Run S A
cleaned f (done a s) = done a s
cleaned f (stop c s) = stop c (f s)
cleaned f endless = endless

-- what a function does at its error exit
abbrev pub or_clean : {S A : Type 0} → (S → S) → Cmd S A → Cmd S A
or_clean f m s = cleaned f (m s)

-- A null pointer or an index out of bounds is used: the program ends here.
abbrev pub crash : {S A : Type 0} → Cmd S A
crash s = endless

-- an access to memory that is in bounds, or `crash`
abbrev pub in_bounds : {S : Type 0} → Bool → Cmd S (Unit {0})
in_bounds true s = done tt s
in_bounds false s = endless

abbrev pub set_fd : {W : Type 0} → ℕ → Option FileDesc → Client W → Client W
set_fd n d s = record s { fds = λ i. if i == n then d else s.fds i }
