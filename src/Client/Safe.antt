-- ===== src/Client/Safe.antt =====
-- Calls of the client library that end, with -1 at every error exit, and leave the descriptors, the
-- user and the host as they are, whatever the peers do.
use sbpfs.Common.{ℕ, ◌≡◌, refl, ◌∙◌, Bool, true, false, if◌then◌else◌, Option, none, some}
use sbpfs.Common.Run.{
  Run, done, stop, endless, Cmd, pure, return_code, return_if, minus, and_then, ◌>>=◌, ◌>>◌, get,
  ignoring, ignored,
}
use sbpfs.Head.Strings.{Bytes}
use sbpfs.Head.{Head, make_head}
use sbpfs.Trace.{Place}
use sbpfs.Client.State.{in_bounds, FileDesc, Client, Talker, Libc, fail, seterr}
use sbpfs.Client.Request.{sbp_get_uand_p, message_of, process_result, refused}

-- what such a call leaves as it is
abbrev pub kept : {W : Type 0} → Client W → (ℕ → Option FileDesc) × Bytes × Bytes × Bytes
kept s = (s.fds, s.user, s.pass, s.host)

-- the end of a run that began in a state
abbrev pub Outcome : {W A : Type 0} → Client W → Run (Client W) A → Type 0
Outcome s (done a s') = kept s' ≡ kept s
Outcome s (stop c s') = (c ≡ minus 1) × (kept s' ≡ kept s)
Outcome s endless = ⊥

pub record IsSafe {W A : Type 0} (m : Cmd (Client W) A) : Type 0 where
  pub ends : (s : Client W) → Outcome s (m s)

module _ {W : Type 0} where
  pub Outcome-from :
      {A : Type 0} (s t : Client W) (r : Run (Client W) A)
      → kept t ≡ kept s
      → Outcome t r
      → Outcome s r
  Outcome-from s t (done a s') e h = h ∙ e
  Outcome-from s t (stop c s') e (code, h) = (code, h ∙ e)
  Outcome-from s t endless e h = h

  Outcome-and_then :
      {A B : Type 0} (s : Client W) (r : Run (Client W) A) (k : A → Cmd (Client W) B)
      → Outcome s r
      → ((a : A) → IsSafe (k a))
      → Outcome s (and_then r k)
  Outcome-and_then s (done a s') k e h = Outcome-from s s' (k a s') e ((h a).ends s')
  Outcome-and_then s (stop c s') k e h = e
  Outcome-and_then s endless k e h = e

  pub bind-IsSafe :
      {A B : Type 0} {m : Cmd (Client W) A} {k : A → Cmd (Client W) B}
      → IsSafe m
      → ((a : A) → IsSafe (k a))
      → IsSafe (m >>= k)
  bind-IsSafe {m} {k} hm hk = record { ends = λ s. Outcome-and_then s (m s) k (hm.ends s) hk }

  pub then-IsSafe :
      {B : Type 0} {m : Cmd (Client W) (Unit {0})} {k : Cmd (Client W) B}
      → IsSafe m
      → IsSafe k
      → IsSafe (m >> k)
  then-IsSafe {m} {k} hm hk = bind-IsSafe hm λ _. hk

  pub get-IsSafe : IsSafe {W = W} get
  get-IsSafe = record { ends = λ s. refl }

  pub pure-IsSafe : {A : Type 0} (a : A) → IsSafe {W = W} (pure a)
  pure-IsSafe a = record { ends = λ s. refl }

  pub return_code-IsSafe : {A : Type 0} → IsSafe {W = W} (return_code {A = A} (minus 1))
  return_code-IsSafe = record { ends = λ s. (refl, refl) }

  pub return_if-IsSafe : (b : Bool) → IsSafe {W = W} (return_if b (minus 1))
  return_if-IsSafe true = record { ends = λ s. (refl, refl) }
  return_if-IsSafe false = record { ends = λ s. refl }

  pub if-IsSafe :
      {A : Type 0} (b : Bool) {m n : Cmd (Client W) A}
      → IsSafe m
      → IsSafe n
      → IsSafe (if b then m else n)
  if-IsSafe true hm hn = hm
  if-IsSafe false hm hn = hn

  pub elim-IsSafe :
      {A B : Type 0} (o : Option A) {m : Cmd (Client W) B} {k : A → Cmd (Client W) B}
      → IsSafe m
      → ((a : A) → IsSafe (k a))
      → IsSafe (elim o [ none ↦ m | some a ↦ k a ])
  elim-IsSafe none hm hk = hm
  elim-IsSafe (some a) hm hk = hk a

  pub in_bounds-IsSafe : (b : Bool) → b ≡ true → IsSafe {W = W} (in_bounds b)
  in_bounds-IsSafe true h = record { ends = λ s. refl }
  in_bounds-IsSafe false h = cc

  Outcome-ignored :
      {A : Type 0} (s : Client W) (r : Run (Client W) A) → Outcome s r → Outcome s (ignored r)
  Outcome-ignored s (done a s') h = h
  Outcome-ignored s (stop c s') (code, h) = h
  Outcome-ignored s endless h = h

  pub ignoring-IsSafe : {A : Type 0} {m : Cmd (Client W) A} → IsSafe m → IsSafe (ignoring m)
  ignoring-IsSafe {m} h = record { ends = λ s. Outcome-ignored s (m s) (h.ends s) }

module _ {W : Type 0} (talker : Talker W) (c : Libc) where
  pub fail-IsSafe :
      {A : Type 0} (type detail : Bytes) (place : Place)
      → IsSafe {W = W} (fail c {A = A} type detail place)
  fail-IsSafe type detail place = record { ends = λ s. (refl, refl) }

  pub seterr-IsSafe :
      (type detail : Bytes) (place : Place) → IsSafe {W = W} (seterr c type detail place)
  seterr-IsSafe type detail place = record { ends = λ s. refl }

  pub sbp_get_uand_p-IsSafe : IsSafe (sbp_get_uand_p talker c)
  unfolding sbp_get_uand_p
  sbp_get_uand_p-IsSafe =
      then-IsSafe (return_if-IsSafe _)
        (then-IsSafe (return_if-IsSafe _) (bind-IsSafe get-IsSafe λ s. pure-IsSafe _))

  pub message_of-IsSafe : (place : Place) (head : Head) → IsSafe (message_of talker c place head)
  unfolding message_of
  message_of-IsSafe place head =
      elim-IsSafe (make_head head) (then-IsSafe (seterr-IsSafe _ _ _) (fail-IsSafe _ _ _))
        λ (len, bytes).
          if-IsSafe (c.grants len) (pure-IsSafe bytes)
            (then-IsSafe (seterr-IsSafe _ _ _) (fail-IsSafe _ _ _))

  pub refused-IsSafe : {A : Type 0} (head : Head) → IsSafe (refused talker c {A = A} head)
  unfolding refused
  refused-IsSafe head = record { ends = λ s. (refl, refl) }

  pub process_result-IsSafe :
      (place : Place) (head : Head) → IsSafe (process_result talker c place head)
  unfolding process_result
  process_result-IsSafe place head =
      if-IsSafe _ (pure-IsSafe tt) (if-IsSafe _ (refused-IsSafe head) (fail-IsSafe _ _ _))
