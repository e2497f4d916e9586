-- ===== src/Client/Offset.antt =====
-- What `sbp_read` and `sbp_write` of libc/read_write.c return, and where they leave the offset.
use mathlib.Core.Path.{subst}
use sbpfs.Common.{
  ℕ, zero, suc, ◌+◌, ◌-◌, ◌%◌, ◌≤◌, arith, true, leb, ◌≡◌, ◌⊎◌, inl, inr, refl, sym, ap, ◌∙◌, not,
  ◌==◌, if◌then◌else◌, some, List, [], ◌∷◌, ◌++◌, length, drop, codes,
}
use sbpfs.Common.Mem.{u64_mod}
use sbpfs.Common.Run.{
  pos, Run, done, stop, endless, Cmd, pure, return_if, minus, and_then, ◌>>=◌, ◌>>◌,
}
use sbpfs.Head.Strings.{Bytes}
use sbpfs.Head.{Head}
use sbpfs.Client.State.{FileDesc, Client, Talker, Libc, t_file, head_err, set_fd, in_bounds}
use sbpfs.Client.Request.{ent, method_entries}
use sbpfs.Client.Files.{fd_or}
use sbpfs.Client.Blocks.{
  BlockEntry, rw_at, read_nodes, read_blocks, write_nodes, write_blocks, blocks_of, ask_blocks,
  advance, sbp_read, sbp_write,
}
use sbpfs.Client.Safe.{
  IsSafe, then-IsSafe, pure-IsSafe, return_if-IsSafe, if-IsSafe, fail-IsSafe, in_bounds-IsSafe,
  process_result-IsSafe,
}
use sbpfs.Client.Gives.{bind-with-IsSafe}
use sbpfs.Client.Received.{IsFittingTalker, IsWhole, entry_of-Gives, exchange-Gives}
use sbpfs.Client.Transfer.{read_nodes-Gives, write_nodes-IsSafe}
use sbpfs.Client.Ends.{Ends, Ends-safe, Ends-Giving, Ends-and_then, pure-Ends}

-- the number of bytes of some blocks
abbrev pub bytes_of : List BlockEntry → ℕ
bytes_of [] = 0
bytes_of (b ∷ bs) = b.length_in_block + bytes_of bs

pub length-drop_lem : (n m : ℕ) (xs : Bytes) → n + m ≤ length xs → m ≤ length (drop n xs)
length-drop_lem zero m xs h = omega (arith, h)
length-drop_lem (suc n) m [] h = absurd (omega (arith, h))
length-drop_lem (suc n) m (x ∷ xs) h = length-drop_lem n m xs (omega (arith, h))

le→leb : (m n : ℕ) → m ≤ n → leb m n ≡ true
le→leb m n h = ground (arith, h)

-- The blocks that are named, where a run ends with some, have `len` bytes at most.
abbrev pub NamesAtMost : {W : Type 0} → ℕ → Run (Client W) (List BlockEntry) → Type 0
NamesAtMost len (done blocks s) = bytes_of blocks ≤ len
NamesAtMost len (stop c s) = Unit
NamesAtMost len endless = Unit

module _ {W : Type 0} (talker : Talker W) (c : Libc) (fitting : IsFittingTalker talker c) where
  -- `read_blocks` ends with the sum of the lengths, or with -1.
  read_blocks-Ends :
      (bs : List BlockEntry) (room : ℕ) (auth : Bytes) (s : Client W)
      → bytes_of bs ≤ room
      → Ends (λ (n, bytes). n ≡ bytes_of bs) s (read_blocks talker c bs room auth s)
  unfolding read_blocks
  read_blocks-Ends [] room auth s wide = pure-Ends _ (0, []) s refl
  read_blocks-Ends (b ∷ bs) room auth s wide =
      Ends-and_then (λ bytes. length bytes ≤ b.length_in_block)
        (λ (n, bytes). n ≡ bytes_of (b ∷ bs)) s (read_nodes talker c b b.d_nodes auth s) _
        (Ends-Giving s _ ((read_nodes-Gives talker c fitting b b.d_nodes auth).ends s))
        λ bytes t part.
          Ends-and_then (λ _. Unit) (λ (n, bytes). n ≡ bytes_of (b ∷ bs)) t
            (in_bounds (leb (length bytes) room) t) _
            (Ends-safe t _ ((in_bounds-IsSafe _ (ground (arith, wide, part))).ends t))
            λ _ u _.
              Ends-and_then (λ (n, rest). n ≡ bytes_of bs) (λ (n, bytes). n ≡ bytes_of (b ∷ bs)) u
                (read_blocks talker c bs (room - b.length_in_block) auth u) _
                (read_blocks-Ends bs (room - b.length_in_block) auth u (omega (arith, wide)))
                λ (n, rest) v e.
                  pure-Ends _ (b.length_in_block + n, bytes ++ rest) v
                    (ap (λ m. b.length_in_block + m) e)

  write_blocks-Ends :
      (bs : List BlockEntry) (buf auth : Bytes) (s : Client W)
      → bytes_of bs ≤ length buf
      → Ends (λ n. n ≡ bytes_of bs) s (write_blocks talker c bs buf auth s)
  unfolding write_blocks
  write_blocks-Ends [] buf auth s enough = pure-Ends _ 0 s refl
  write_blocks-Ends (b ∷ bs) buf auth s enough =
      Ends-and_then (λ _. Unit) (λ n. n ≡ bytes_of (b ∷ bs)) s
        (write_nodes talker c b b.d_nodes buf auth s) _
        (Ends-safe s _ (
          (write_nodes-IsSafe talker c fitting b b.d_nodes buf auth (omega (arith, enough))).ends
            s))
        λ (k, l) t _.
          Ends-and_then (λ _. Unit) (λ n. n ≡ bytes_of (b ∷ bs)) t
            (return_if (not (k == l)) (minus 1) t) _
            (Ends-safe t _ ((return_if-IsSafe (not (k == l))).ends t))
            λ _ u _.
              Ends-and_then (λ n. n ≡ bytes_of bs) (λ n. n ≡ bytes_of (b ∷ bs)) u
                (write_blocks talker c bs (drop b.length_in_block buf) auth u) _
                (write_blocks-Ends bs (drop b.length_in_block buf) auth u
                  (length-drop_lem b.length_in_block (bytes_of bs) buf enough))
                λ n v e. pure-Ends _ (b.length_in_block + n) v (ap (λ m. b.length_in_block + m) e)

  blocks_of-IsSafe :
      (head : Head) (rec_data : Bytes)
      → IsWhole c head rec_data
      → IsSafe (blocks_of talker c head rec_data)
  unfolding blocks_of
  blocks_of-IsSafe head rec_data whole =
      let at = rw_at (codes "sbp_read_or_write") in
      bind-with-IsSafe
        (entry_of-Gives talker c (codes "Content-Length") head_err
          (codes "Missing Content-Length Entry") (at 85) head)
        λ value found.
          if-IsSafe _
            (then-IsSafe (in_bounds-IsSafe _ (le→leb _ _ (whole value found))) (pure-IsSafe _))
            (fail-IsSafe talker c _ _ _)

  ask_blocks-IsSafe :
      (d : FileDesc) (len : ℕ) (method : Bytes) → IsSafe (ask_blocks talker c d len method)
  unfolding ask_blocks
  ask_blocks-IsSafe d len method =
      let at = rw_at (codes "sbp_read_or_write") in
      let print = c.sprintf (codes "%lld") in
      bind-with-IsSafe
        (exchange-Gives talker c fitting (at 79) (
          method_entries method (codes "3")
            (ent (codes "Arg0") (print d.server_fd)
              ∷ ent (codes "Arg1") (print d.offset)
              ∷ ent (codes "Arg2") (print len)
              ∷ [])
            (codes "0")))
        λ (head, rec_data) whole.
          then-IsSafe (process_result-IsSafe talker c (at 113) head)
            (blocks_of-IsSafe head rec_data whole)

  -- a descriptor whose offset has moved on
  abbrev pub moved : ℕ → FileDesc → FileDesc
  moved ret d = record d { offset = (d.offset + ret) % u64_mod }

  advance-found :
      (n ret : ℕ) (d : FileDesc) (s : Client W)
      → s.fds n ≡ some d
      → advance talker c n ret s ≡ done tt (set_fd n (some (moved ret d)) s)
  unfolding advance
  advance-found n ret d s here = rw here refl

  -- The end of a transfer: the descriptor has moved by the length of the blocks, or it is as before.
  abbrev pub Transferred :
      {A : Type 0} → (A → ℕ) → ℕ → FileDesc → ℕ → Bytes → Client W → Run (Client W) A → Type 0
  Transferred {A} count n d len method s r =
      ((blocks : List BlockEntry) × (t : Client W) × (a : A) × (s' : Client W) × (ask_blocks talker
            c d len method s
          ≡ done blocks t)
        × (r ≡ done a s')
        × (count a ≡ bytes_of blocks)
        × (s'.fds ≡ (set_fd n (some (moved (bytes_of blocks) d)) s).fds))
      ⊎ ((s' : Client W) × (r ≡ stop (minus 1) s') × (s'.fds ≡ s.fds))

  transfer-Transferred :
      {A : Type 0} (count : A → ℕ) (n : ℕ) (d : FileDesc) (len : ℕ) (method : Bytes)
      (m : List BlockEntry → Cmd (Client W) A) (s : Client W)
      → s.fds n ≡ some d
      → NamesAtMost len (ask_blocks talker c d len method s)
      → ((blocks : List BlockEntry) (t : Client W)
          → bytes_of blocks ≤ len
          → Ends (λ a. count a ≡ bytes_of blocks) t (m blocks t))
      → Transferred count n d len method s (
          and_then
            (ask_blocks talker c d len method s)
            λ blocks. m blocks >>= λ a. advance talker c n (count a) >> pure a)
  transfer-Transferred count n d len method m s here small ends =
      let last : _ → Cmd (Client W) _ = λ a. advance talker c n (count a) >> pure a in
      let go : List BlockEntry → Cmd (Client W) _ = λ blocks. m blocks >>= last in
      elim (Ends-safe s _ ((ask_blocks-IsSafe d len method).ends s)) [
        | inr (s', stopped, same) ↦ inr (s', ap (λ r. and_then r go) stopped, λ i. (same i).0)
        | inl (blocks, t, asked, _, same) ↦
            elim (ends blocks t (subst (NamesAtMost len) asked small)) [
              | inr (s', stopped, same') ↦ inr (
                s',
                ap (λ r. and_then r go) asked ∙ ap (λ r. and_then r last) stopped,
                λ i. ((same' ∙ same) i).0,
              )
              | inl (a, t', ran, counted, same') ↦
                  let fds : t'.fds ≡ s.fds = λ i. ((same' ∙ same) i).0 in
                  inl (
                    blocks,
                    t,
                    a,
                    set_fd n (some (moved (count a) d)) t',
                    asked,
                    ap (λ r. and_then r go) asked
                        ∙ (ap (λ r. and_then r last) ran
                            ∙ ap (λ r. and_then r (λ _. pure a))
                                (advance-found n (count a) d t' ((λ i. fds i n) ∙ here))),
                    counted,
                    λ i j. if j == n then some (moved (counted i) d) else fds i j,
                  )
            ]
      ]

  sbp_write-found :
      (n : ℕ) (d : FileDesc) (buf : Bytes) (s : Client W)
      → s.fds n ≡ some d
      → d.type ≡ t_file
      → sbp_write talker c (pos n) buf s
        ≡ and_then (ask_blocks talker c d (length buf) (codes "WRITE") s) (λ blocks.
          write_blocks talker c blocks buf d.auth_code >>= λ a. advance talker c n a >> pure a)
  unfolding sbp_write fd_or
  sbp_write-found n d buf s here file = rw (here, file) refl

  sbp_read-found :
      (n : ℕ) (d : FileDesc) (len : ℕ) (s : Client W)
      → s.fds n ≡ some d
      → d.type ≡ t_file
      → sbp_read talker c (pos n) len s
        ≡ and_then (ask_blocks talker c d len (codes "READ") s) (λ blocks.
          read_blocks talker c blocks len d.auth_code >>= λ a. advance talker c n a.0 >> pure a)
  unfolding sbp_read
  sbp_read-found n d len s here file = rw (here, file) refl

  -- `sbp_write` and `sbp_read` on the descriptor of a file end, whatever the peers answer in replies of
  -- 32 entries at most that have the bytes their Content-Length says, where the blocks that the
  -- control node names have no more bytes than the buffer: each
  -- returns the sum of the lengths of the blocks that the control node has named, and moves the
  -- offset of this descriptor by it, or it returns -1 and leaves all descriptors as they are.
  pub sbp_read_or_write-Transferred :
      (n : ℕ) (d : FileDesc) (buf : Bytes) (len : ℕ) (s : Client W)
      → s.fds n ≡ some d
      → d.type ≡ t_file
      → NamesAtMost (length buf) (ask_blocks talker c d (length buf) (codes "WRITE") s)
      → NamesAtMost len (ask_blocks talker c d len (codes "READ") s)
      → Transferred
          (λ ret. ret)
          n
          d
          (length buf)
          (codes "WRITE")
          s
          (sbp_write talker c (pos n) buf s)
        × Transferred
            (λ (ret, bytes). ret)
            n
            d
            len
            (codes "READ")
            s
            (sbp_read talker c (pos n) len s)
  sbp_read_or_write-Transferred n d buf len s here file small_write small_read = (
    subst (Transferred (λ ret. ret) n d (length buf) (codes "WRITE") s)
        (sym (sbp_write-found n d buf s here file))
        (transfer-Transferred (λ ret. ret) n d (length buf) (codes "WRITE")
          (λ blocks. write_blocks talker c blocks buf d.auth_code) s here small_write
          λ blocks t small. write_blocks-Ends blocks buf d.auth_code t small),
    subst (Transferred (λ (ret, bytes). ret) n d len (codes "READ") s)
        (sym (sbp_read-found n d len s here file))
        (transfer-Transferred (λ (ret, bytes). ret) n d len (codes "READ")
          (λ blocks. read_blocks talker c blocks len d.auth_code) s here small_read
          λ blocks t small. read_blocks-Ends blocks len d.auth_code t small),
  )
