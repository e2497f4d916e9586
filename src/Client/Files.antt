-- ===== src/Client/Files.antt =====
-- Files and directories by descriptor: libc/open.c, libc/dir.c, and `sbp_seek` of
-- libc/read_write.c.
use sbpfs.Common.{
  ℕ, ◌+◌, ◌-◌, ◌%◌, ◌==◌, leb, ltb, Bool, true, false, ◌&&◌, not, if◌then◌else◌, Option, none, some,
  [], ◌∷◌, length, take, drop, codes,
}
use sbpfs.Common.Mem.{u64_mod}
use sbpfs.Common.Run.{
  ℤ, pos, negsuc, minus, Cmd, done, stop, endless, pure, return_code, return_if, ◌>>=◌, ◌>>◌, get,
  put_state, ignoring,
}
use sbpfs.Head.Strings.{Bytes}
use sbpfs.Head.{Head, get_head_entry_value}
use sbpfs.Trace.{Place}
use sbpfs.Net.{get_slot}
use sbpfs.Client.State.{
  FileDesc, Client, Talker, Libc, mem_err, data_err, head_err, t_dir, t_file, auth_code_len, at,
  seterr, fail, malloc_or, or_clean, crash, in_bounds, set_fd,
}
use sbpfs.Client.Request.{ent, method_entries, exchange, process_result, lib_at}

abbrev pub is_used : Option FileDesc → Bool
is_used none = false
is_used (some d) = true

abbrev pub open_at : Bytes → ℕ → Place
open_at func line = at (codes "open.c") func line

abbrev pub dir_at : Bytes → ℕ → Place
dir_at func line = at (codes "dir.c") func line

-- a descriptor after `bzero`
abbrev pub fresh_fd : FileDesc
fresh_fd = record {
  server_fd = 0;
  offset = 0;
  oflag = 0;
  length = 0;
  type = 0;
  filename = [];
  auth_code = [];
}

-- `sizeof(struct sbp_filestat)` and `sizeof(struct sbp_dirent_for_trans)`
abbrev pub filestat_size : ℕ
filestat_size = 64

abbrev pub dirent_size : ℕ
dirent_size = 257

-- the string at the start of some bytes
abbrev pub string_at : Bytes → Bytes
string_at [] = []
string_at (b ∷ bs) = if b == 0 then [] else b ∷ string_at bs

-- `fds[fd]->offset + offset` for an `s64_t` offset, as a pattern of 64 bits
abbrev pub add_signed : ℕ → ℤ → ℕ
add_signed a (pos n) = (a + n) % u64_mod
add_signed a (negsuc n) = (a + u64_mod - (n + 1) % u64_mod) % u64_mod

module _ {W : Type 0} where
  -- the descriptor of a number, or -1
  unfoldable pub fd_or : ℤ → Cmd (Client W) (ℕ × FileDesc)
  fd_or (negsuc n) = return_code (minus 1)
  fd_or (pos n) = do s ← get; elim (s.fds n) [ none ↦ return_code (minus 1) | some d ↦ pure (n, d) ]

  unfoldable pub store_fd : ℕ → (FileDesc → FileDesc) → Cmd (Client W) (Unit {0})
  store_fd n f = do
    s ← get
    elim (s.fds n) [ none ↦ crash | some d ↦ put_state (set_fd n (some (f d)) s) ]

  -- The error exit that closes the descriptor first, and looks at no code of it.
  unfoldable pub closing : {A : Type 0} → Cmd (Client W) ℤ → Cmd (Client W) A → Cmd (Client W) A
  closing close m s = elim (m s) [
    | done a s' ↦ done a s'
    | stop code s' ↦ (ignoring close >>= λ _. return_code code) s'
    | endless ↦ endless
  ]

  -- The offset is moved, where it stays at 0 or more as an `s64_t`.
  unfoldable pub sbp_seek : ℤ → ℤ → Cmd (Client W) ℤ
  unfolding fd_or
  sbp_seek fd offset = do
    (n, d) ← fd_or fd
    let moved = add_signed d.offset offset
    return_if (leb 9_223_372_036_854_775_808 moved) (minus 1)
    s ← get
    put_state (set_fd n (some (record d { offset = moved })) s)
    pure (pos 0)

module _ {W : Type 0} (talker : Talker W) (c : Libc) where
  -- An entry of a reply's head, or `seterr` and the error exit.
  unfoldable pub entry_of : Bytes → Bytes → Bytes → Place → Head → Cmd (Client W) Bytes
  unfolding get_head_entry_value
  entry_of name type detail place head = elim (get_head_entry_value head name) [
    | none ↦ fail c type detail place
    | some value ↦ pure value
  ]

  -- The slot that `sbp_open` and `sbp_opendir` begin with; the code is looked at when it is used.
  unfoldable pub find_slot : Cmd (Client W) ℤ
  unfolding get_slot
  find_slot = do
    s ← get
    elim (get_slot (λ i. is_used (s.fds i))) [
      | pos n ↦ pure (pos n)
      | negsuc n ↦ (do
        seterr c mem_err (codes "Could not find a free file_desc slot")
            (lib_at (codes "get_slot") 371)
        pure (negsuc n))
    ]

  -- `free_sbpfd(fds[fd]); fds[fd] = NULL;` is the error exit of a close.
  unfoldable pub close_call : Place → Bytes → ℕ → FileDesc → Cmd (Client W) ℤ
  unfolding exchange process_result
  close_call place method n d = do
    (head, rec_data) ← exchange talker c place (
        method_entries method (codes "1")
          (ent (codes "Arg0") (c.sprintf (codes "%lld") d.server_fd) ∷ []) (codes "0"))
    process_result talker c place head
    pure (pos 0)

  -- The error exit is not taken where the user's name is not there. A successful close keeps the
  -- descriptor.
  unfoldable pub sbp_close : ℤ → Cmd (Client W) ℤ
  unfolding fd_or close_call
  sbp_close fd = do
    (n, d) ← fd_or fd
    return_if (not (c.grants 17 && c.grants 33)) (minus 1)
    or_clean (set_fd n none) (close_call (open_at (codes "sbp_close") 197) (codes "CLOSE") n d)

  unfoldable pub sbp_closedir : ℤ → Cmd (Client W) ℤ
  unfolding fd_or close_call
  sbp_closedir fd = do
    (n, d) ← fd_or fd
    return_if (not (d.type == t_dir)) (minus 1)
    return_if (not (c.grants 17 && c.grants 33)) (minus 1)
    r ←
        or_clean (set_fd n none)
          (close_call (dir_at (codes "sbp_closedir") 118) (codes "CLOSEDIR") n d)
    s ← get
    put_state (set_fd n none s)
    pure r

  -- A new descriptor in a slot. A slot of -1 is out of bounds.
  unfoldable pub new_fd : Place → ℤ → Cmd (Client W) ℕ
  new_fd no_desc (negsuc n) = crash
  new_fd no_desc (pos n) = do
    malloc_or c 80 no_desc
    s ← get
    put_state (set_fd n (some fresh_fd) s)
    pure n

  -- What `sbp_open` does with its slot and the head of the reply.
  unfoldable pub fill_file : Bytes → ℕ → ℕ → Head → Cmd (Client W) (Unit {0})
  unfolding entry_of store_fd get_head_entry_value
  fill_file filename oflag n head = do
    malloc_or c 8 (open_at (codes "sbp_open") 55)
    store_fd n (λ d. record d { filename = filename; oflag = oflag; offset = 0; type = t_file })
    fd_s ← elim (get_head_entry_value head (codes "FD")) [
      | none ↦ return_code (minus 1)
      | some value ↦ pure value
    ]
    store_fd n (λ d. record d { server_fd = c.atoll fd_s })
    auth_code ←
        entry_of (codes "Auth-Code") data_err (codes "Auth-code length not match")
          (open_at (codes "sbp_open") 71) head
    if ltb auth_code_len (length auth_code)
        then fail c data_err (codes "Auth-code length not match") (open_at (codes "sbp_open") 76)
        else store_fd n (λ d. record d { auth_code = auth_code })

  unfoldable pub sbp_open : Bytes → ℕ → ℕ → Cmd (Client W) ℤ
  unfolding find_slot exchange process_result new_fd fill_file closing sbp_close
  sbp_open filename oflag mode = do
    fd ← find_slot
    (head, rec_data) ← exchange talker c (open_at (codes "sbp_open") 43) (
        method_entries (codes "OPEN") (codes "3")
          (ent (codes "Arg0") filename
            ∷ ent (codes "Arg1") (c.sprintf (codes "%08d") oflag)
            ∷ ent (codes "Arg2") (c.sprintf (codes "%04d") mode)
            ∷ [])
          (codes "0"))
    process_result talker c (open_at (codes "sbp_open") 86) head
    n ← new_fd (open_at (codes "sbp_open") 49) fd
    closing (sbp_close (pos n)) (fill_file filename oflag n head)
    pure fd

  -- The same of `sbp_opendir`.
  unfoldable pub fill_dir : Bytes → ℕ → Head → Cmd (Client W) (Unit {0})
  unfolding entry_of store_fd
  fill_dir filename n head = do
    malloc_or c 8 (dir_at (codes "sbp_opendir") 45)
    store_fd n (λ d. record d { filename = filename; offset = 0; type = t_dir })
    fd_s ←
        entry_of (codes "DirFD") data_err (codes "Could not get FD")
          (dir_at (codes "sbp_opendir") 55) head
    store_fd n (λ d. record d { server_fd = c.atoll fd_s })
    ent_num ←
        entry_of (codes "DirEntryNum") data_err (codes "Could not get dir entry number")
          (dir_at (codes "sbp_opendir") 67) head
    store_fd n (λ d. record d { length = c.atoll ent_num })

  unfoldable pub sbp_opendir : Bytes → Cmd (Client W) ℤ
  unfolding find_slot exchange process_result new_fd fill_dir closing sbp_closedir
  sbp_opendir filename = do
    fd ← find_slot
    (head, rec_data) ← exchange talker c (dir_at (codes "sbp_opendir") 34) (
        method_entries (codes "OPENDIR") (codes "1") (ent (codes "Arg0") filename ∷ []) (codes "0"))
    process_result talker c (dir_at (codes "sbp_opendir") 83) head
    n ← new_fd (dir_at (codes "sbp_opendir") 39) fd
    closing (sbp_closedir (pos n)) (fill_dir filename n head)
    pure fd

  -- The body of a reply, which has to have a length.
  unfoldable pub sized_body : ℕ → Place → Head → Bytes → Cmd (Client W) Bytes
  unfolding entry_of
  sized_body size place head rec_data = do
    value ←
        entry_of (codes "Content-Length") head_err (codes "Missing Content-Length Entry") place head
    return_if (not (c.atoll value == size)) (minus 1)
    in_bounds (leb (head.head_len + size) (length rec_data))
    pure (take size (drop head.head_len rec_data))

  -- The bytes of the `struct sbp_filestat`.
  unfoldable pub sbp_stat : Bytes → Cmd (Client W) Bytes
  unfolding exchange process_result sized_body
  sbp_stat filename = do
    (head, rec_data) ←
        exchange talker c (open_at (codes "sbp_stat") 140)
          (method_entries (codes "STAT") (codes "1") (ent (codes "Arg0") filename ∷ []) (codes "0"))
    process_result talker c (open_at (codes "sbp_stat") 164) head
    sized_body filestat_size (open_at (codes "sbp_stat") 148) head rec_data

  -- The type, the name and the offset of the next entry; the offset moves on by one.
  unfoldable pub sbp_readdir : ℤ → Cmd (Client W) (Bytes × Bytes × ℕ)
  unfolding fd_or exchange process_result sized_body
  sbp_readdir fd = do
    (n, d) ← fd_or fd
    (head, rec_data) ← exchange talker c (dir_at (codes "sbp_readdir") 174) (
        method_entries (codes "READDIR") (codes "2")
          (ent (codes "Arg0") (c.sprintf (codes "%lld") d.server_fd)
            ∷ ent (codes "Arg1") (c.sprintf (codes "%lld") d.offset)
            ∷ [])
          (codes "0"))
    process_result talker c (dir_at (codes "sbp_readdir") 196) head
    body ← sized_body dirent_size (dir_at (codes "sbp_readdir") 180) head rec_data
    s ← get
    put_state (set_fd n (some (record d { offset = (d.offset + 1) % u64_mod })) s)
    pure (take 1 body, string_at (drop 1 body), d.offset)
