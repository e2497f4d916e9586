-- ===== src/Client/Seek.antt =====
-- Where `sbp_seek` of libc/read_write.c puts the offset, in integers.
use sbpfs.Common.{
  ℕ, ◌+◌, ◌-◌, ◌^◌, ◌<◌, ◌≡◌, refl, ◌∙◌, arith, ltb, leb, if◌then◌else◌, Option, none, some,
  Bool-cases, inl, inr,
}
use sbpfs.Common.Run.{ℤ, pos, negsuc, Run, done, stop, minus}
use sbpfs.Client.State.{FileDesc, Client, set_fd}
use sbpfs.Client.Files.{fd_or, add_signed, sbp_seek}

-- an `s64_t`
abbrev pub IsS64 : ℤ → Type 0
IsS64 (pos n) = n < 2 ^ 63
IsS64 (negsuc n) = n < 2 ^ 63

-- An offset plus an integer, if that is a file offset.
abbrev pub landing : ℕ → ℤ → Option ℕ
landing offset (pos n) = if ltb (offset + n) (2 ^ 63) then some (offset + n) else none
landing offset (negsuc n) = if ltb n offset then some (offset - (n + 1)) else none

-- the descriptor at a new offset and 0, or -1 and nothing changed
abbrev pub sought : {W : Type 0} → ℕ → FileDesc → Client W → Option ℕ → Run (Client W) ℤ
sought n d s none = stop (minus 1) s
sought n d s (some offset) = done (pos 0) (set_fd n (some (record d { offset = offset })) s)

-- what `sbp_seek` makes of the sum
abbrev at_sum : {W : Type 0} → ℕ → FileDesc → Client W → ℕ → Run (Client W) ℤ
at_sum n d s moved =
    if leb 9_223_372_036_854_775_808 moved then stop (minus 1) s else sought n d s (some moved)

module _ {W : Type 0} (n : ℕ) (d : FileDesc) (s : Client W) where
  sbp_seek-found :
      (o : ℤ) → s.fds n ≡ some d → sbp_seek (pos n) o s ≡ at_sum n d s (add_signed d.offset o)
  unfolding sbp_seek fd_or
  sbp_seek-found o here =
      elim (Bool-cases (leb 9_223_372_036_854_775_808 (add_signed d.offset o))) [
        | inl big ↦ rw (here, big) refl
        | inr small ↦ rw (here, small) refl
      ]

  at_sum-landing :
      (o : ℤ)
      → d.offset < 2 ^ 63
      → IsS64 o
      → at_sum n d s (add_signed d.offset o) ≡ sought n d s (landing d.offset o)
  at_sum-landing (pos k) low small = ground arith
  at_sum-landing (negsuc k) low small = ground arith

  -- `sbp_seek` on a descriptor, whose offset is below 2^63, adds an `s64_t` to it and returns 0, where
  -- the sum is at least 0 and below 2^63, and else returns -1 and changes nothing.
  pub sbp_seek-landing :
      (o : ℤ)
      → s.fds n ≡ some d
      → d.offset < 2 ^ 63
      → IsS64 o
      → sbp_seek (pos n) o s ≡ sought n d s (landing d.offset o)
  sbp_seek-landing o here low small = sbp_seek-found o here ∙ at_sum-landing o low small
