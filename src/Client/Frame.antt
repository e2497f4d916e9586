-- ===== src/Client/Frame.antt =====
-- What the operations of libc on names and on descriptors leave as it is.
use sbpfs.Common.{
  ℕ, ◌≡◌, ◌⊎◌, inl, inr, refl, ap, ◌∙◌, true, leb, not, arith, ◌+◌, ◌≤◌, length, take, drop,
  Bool-cases, ==→eq, ◌==◌, if◌then◌else◌, none, some, List, [], ◌∷◌, codes,
}
use sbpfs.Common.Run.{ℤ, pos, Run, done, stop, endless, Cmd, pure, return_if, minus, and_then, ◌>>◌}
use sbpfs.Head.Strings.{Bytes}
use sbpfs.Head.{Head, HeadEntry}
use sbpfs.Trace.{Place}
use sbpfs.Client.State.{FileDesc, Client, Talker, Libc, t_dir, set_fd, cleaned, in_bounds}
use sbpfs.Client.Request.{ent, method_entries, exchange, process_result, simple_call}
use sbpfs.Client.Files.{
  open_at, dir_at, filestat_size, sized_body, sbp_stat, fd_or, close_call, sbp_close, sbp_closedir,
}
use sbpfs.Client.Names.{sbp_mkdir, sbp_rmdir, sbp_chmod, sbp_chown, sbp_move, sbp_remove}
use sbpfs.Client.Gives.{bind-with-IsSafe}
use sbpfs.Client.Received.{
  IsFittingTalker, IsWhole, entry_of-Gives, exchange-Gives, exchange-IsSafe,
}
use sbpfs.Client.Safe.{
  in_bounds-IsSafe, Outcome-from, IsSafe, Outcome, kept, then-IsSafe, pure-IsSafe, return_if-IsSafe,
  process_result-IsSafe,
}

-- A run that returns 0 or -1 and leaves the descriptors, the user and the host as they are.
abbrev pub EndsZeroOr : {W : Type 0} → Client W → Run (Client W) ℤ → Type 0
EndsZeroOr {W} s r =
    ((s' : Client W) × (r ≡ done (pos 0) s') × (kept s' ≡ kept s))
    ⊎ ((s' : Client W) × (r ≡ stop (minus 1) s') × (kept s' ≡ kept s))

module _ {W : Type 0} where
  zero_at_end :
      (s : Client W) (r : Run (Client W) (Unit {0}))
      → Outcome s r
      → EndsZeroOr s (and_then r (λ _. pure (pos 0)))
  zero_at_end s (done a s') h = inl (s', refl, h)
  zero_at_end s (stop c s') (code, h) = inr (s', (λ i. stop (code i) s'), h)
  zero_at_end s endless h = absurd h

  zero_behind :
      {A : Type 0} (s : Client W) (r : Run (Client W) A) (k : A → Cmd (Client W) (Unit {0}))
      → Outcome s r
      → ((a : A) → IsSafe (k a))
      → EndsZeroOr s (and_then r (λ a. k a >> pure (pos 0)))
  zero_behind s (done a s') k e h =
      zero_at_end s (k a s') (Outcome-from s s' (k a s') e ((h a).ends s'))
  zero_behind s (stop c s') k (code, e) h = inr (s', (λ i. stop (code i) s'), e)
  zero_behind s endless k e h = absurd e

-- A body of the right length is in the reply.
sized-IsSafe :
    {W : Type 0} (n size : ℕ) (head : Head) (rec_data : Bytes)
    → head.head_len + n ≤ length rec_data
    → IsSafe {W = W} (
        return_if (not (n == size)) (minus 1)
        >> (in_bounds (leb (head.head_len + size) (length rec_data))
            >> pure (take size (drop head.head_len rec_data))))
sized-IsSafe n size head rec_data whole = elim (Bool-cases (n == size)) [
  | inr other ↦ record { ends = λ s. rw other (refl, refl) }
  | inl same ↦
      then-IsSafe (return_if-IsSafe _) (
        then-IsSafe (in_bounds-IsSafe _ (ground (arith, whole, ==→eq n size same))) (pure-IsSafe _))
]

module _ {W : Type 0} (talker : Talker W) (c : Libc) (fitting : IsFittingTalker talker c) where
  sized_body-IsSafe :
      (size : ℕ) (place : Place) (head : Head) (rec_data : Bytes)
      → IsWhole c head rec_data
      → IsSafe (sized_body talker c size place head rec_data)
  unfolding sized_body
  sized_body-IsSafe size place head rec_data whole =
      bind-with-IsSafe (entry_of-Gives talker c _ _ _ place head)
        λ value found. sized-IsSafe (c.atoll value) size head rec_data (whole value found)

  sbp_stat-IsSafe : (filename : Bytes) → IsSafe (sbp_stat talker c filename)
  unfolding sbp_stat
  sbp_stat-IsSafe filename =
      let at = open_at (codes "sbp_stat") in
      bind-with-IsSafe
        (exchange-Gives talker c fitting (at 140) (
          method_entries (codes "STAT") (codes "1") (ent (codes "Arg0") filename ∷ []) (codes "0")))
        λ (head, rec_data) whole.
          then-IsSafe (process_result-IsSafe talker c (at 164) head)
            (sized_body-IsSafe filestat_size (at 148) head rec_data whole)

  pub simple_call-EndsZeroOr :
      (place : Place) (method argc : Bytes) (args : List HeadEntry) (s : Client W)
      → EndsZeroOr s (simple_call talker c place method argc args s)
  unfolding simple_call
  simple_call-EndsZeroOr place method argc args s =
      let entries = method_entries method argc args (codes "0") in
      zero_behind s (exchange talker c place entries s)
        (λ (head, rec_data). process_result talker c place head)
        ((exchange-IsSafe talker c fitting place entries).ends s)
        λ (head, rec_data). process_result-IsSafe talker c place head

  close_call-EndsZeroOr :
      (place : Place) (method : Bytes) (n : ℕ) (d : FileDesc) (s : Client W)
      → EndsZeroOr s (close_call talker c place method n d s)
  unfolding close_call
  close_call-EndsZeroOr place method n d s =
      let entries =
        method_entries method (codes "1")
          (ent (codes "Arg0") (c.sprintf (codes "%lld") d.server_fd) ∷ []) (codes "0") in
      zero_behind s (exchange talker c place entries s)
        (λ (head, rec_data). process_result talker c place head)
        ((exchange-IsSafe talker c fitting place entries).ends s)
        λ (head, rec_data). process_result-IsSafe talker c place head

  -- `sbp_mkdir`, `sbp_rmdir`, `sbp_chmod`, `sbp_chown`, `sbp_move` and `sbp_remove` return 0 or -1, and
  -- `sbp_stat` ends, with its -1 at every error exit; none changes a descriptor, the user, the
  -- password or the host, whatever memory is granted, and whatever the peers answer in a reply of 32
  -- entries at most that has the bytes its Content-Length says.
  pub names-EndsZeroOr :
      (name name' : Bytes) (mode : ℕ) (s : Client W)
      → EndsZeroOr s (sbp_mkdir talker c name s)
        × EndsZeroOr s (sbp_rmdir talker c name s)
        × EndsZeroOr s (sbp_chmod talker c name mode s)
        × EndsZeroOr s (sbp_chown talker c name name' s)
        × EndsZeroOr s (sbp_move talker c name name' s)
        × EndsZeroOr s (sbp_remove talker c name s)
        × Outcome s (sbp_stat talker c name s)
  unfolding sbp_mkdir sbp_rmdir sbp_chmod sbp_chown sbp_move sbp_remove
  names-EndsZeroOr name name' mode s = (
    search simple_call-EndsZeroOr,
    search simple_call-EndsZeroOr,
    search simple_call-EndsZeroOr,
    search simple_call-EndsZeroOr,
    search simple_call-EndsZeroOr,
    search simple_call-EndsZeroOr,
    (sbp_stat-IsSafe name).ends s,
  )

  sbp_close-found :
      (n : ℕ) (d : FileDesc) (s : Client W)
      → s.fds n ≡ some d
      → c.grants 17 ≡ true
      → c.grants 33 ≡ true
      → sbp_close talker c (pos n) s
        ≡ cleaned
            (set_fd n none)
            (close_call talker c (open_at (codes "sbp_close") 197) (codes "CLOSE") n d s)
  unfolding sbp_close fd_or
  sbp_close-found n d s here g17 g33 = rw (here, g17, g33) refl

  -- what `sbp_closedir` makes of the run of its request
  abbrev freed : ℕ → Run (Client W) ℤ → Run (Client W) ℤ
  freed n r = and_then (cleaned (set_fd n none) r) (λ v s. done v (set_fd n none s))

  sbp_closedir-found :
      (n : ℕ) (d : FileDesc) (s : Client W)
      → s.fds n ≡ some d
      → d.type ≡ t_dir
      → c.grants 17 ≡ true
      → c.grants 33 ≡ true
      → sbp_closedir talker c (pos n) s
        ≡ freed n (close_call talker c (dir_at (codes "sbp_closedir") 118) (codes "CLOSEDIR") n d s)
  unfolding sbp_closedir fd_or
  sbp_closedir-found n d s here dir g17 g33 = rw (here, dir, g17, g33) refl

  -- `sbp_close` of a descriptor, where its user and password can be copied and replies have 32 entries
  -- at most and the bytes that their Content-Length says: with 0 it leaves all
  -- descriptors as they are, the closed one with them, and with -1 it frees the descriptor and no
  -- other.
  pub sbp_close-slots :
      (n : ℕ) (d : FileDesc) (s : Client W)
      → s.fds n ≡ some d
      → c.grants 17 ≡ true
      → c.grants 33 ≡ true
      → ((s' : Client W) × (sbp_close talker c (pos n) s ≡ done (pos 0) s') × (s'.fds ≡ s.fds))
        ⊎ ((s' : Client W) × (sbp_close talker c (pos n) s ≡ stop (minus 1) s')
            × (s'.fds ≡ (set_fd n none s).fds))
  sbp_close-slots n d s here g17 g33 =
      let run = sbp_close-found n d s here g17 g33 in
      elim (close_call-EndsZeroOr (open_at (codes "sbp_close") 197) (codes "CLOSE") n d s) [
        | inl (s', e, same) ↦ inl (s', run ∙ ap (cleaned (set_fd n none)) e, λ i. (same i).0)
        | inr (s', e, same) ↦ inr (
          set_fd n none s',
          run ∙ ap (cleaned (set_fd n none)) e,
          λ i j. if j == n then none else (same i).0 j,
        )
      ]

  -- `sbp_closedir` of the descriptor of a directory, where its user and password can be copied,
  -- returns 0 or -1, and frees the descriptor and no other in both cases.
  pub sbp_closedir-slots :
      (n : ℕ) (d : FileDesc) (s : Client W)
      → s.fds n ≡ some d
      → d.type ≡ t_dir
      → c.grants 17 ≡ true
      → c.grants 33 ≡ true
      → (s' : Client W) × ((sbp_closedir talker c (pos n) s ≡ done (pos 0) s')
          ⊎ (sbp_closedir talker c (pos n) s ≡ stop (minus 1) s'))
        × (s'.fds ≡ (set_fd n none s).fds)
  sbp_closedir-slots n d s here dir g17 g33 =
      let run = sbp_closedir-found n d s here dir g17 g33 in
      elim (close_call-EndsZeroOr (dir_at (codes "sbp_closedir") 118) (codes "CLOSEDIR") n d s) [
        | inl (s', e, same) ↦ (
          set_fd n none s',
          inl (run ∙ ap (freed n) e),
          λ i j. if j == n then none else (same i).0 j,
        )
        | inr (s', e, same) ↦ (
          set_fd n none s',
          inr (run ∙ ap (freed n) e),
          λ i j. if j == n then none else (same i).0 j,
        )
      ]
