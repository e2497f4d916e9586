-- ===== src/Client/Gives.antt =====
-- Calls of the client library that end, and whose value has a property.
use sbpfs.Common.{◌≡◌, refl, ◌∙◌, Bool, true, false, if◌then◌else◌, Option, none, some}
use sbpfs.Common.Run.{
  Run, done, stop, endless, Cmd, pure, minus, and_then, ◌>>=◌, ignoring, ignored,
}
use sbpfs.Client.State.{Client}
use sbpfs.Client.Safe.{IsSafe, Outcome, kept}

-- A run that ends as `Outcome` says, and whose value has a property.
abbrev pub Giving : {W A : Type 0} → (A → Type 0) → Client W → Run (Client W) A → Type 0
Giving P s (done a s') = P a × (kept s' ≡ kept s)
Giving P s (stop c s') = (c ≡ minus 1) × (kept s' ≡ kept s)
Giving P s endless = ⊥

pub record Gives {W A : Type 0} (P : A → Type 0) (m : Cmd (Client W) A) : Type 0 where
  pub ends : (s : Client W) → Giving P s (m s)

module _ {W : Type 0} where
  Giving-from :
      {A : Type 0} (P : A → Type 0) (s t : Client W) (r : Run (Client W) A)
      → kept t ≡ kept s
      → Giving P t r
      → Giving P s r
  Giving-from P s t (done a s') e (p, h) = (p, h ∙ e)
  Giving-from P s t (stop c s') e (code, h) = (code, h ∙ e)
  Giving-from P s t endless e h = h

  Giving-and_then :
      {A B : Type 0} (P : A → Type 0) (Q : B → Type 0) (s : Client W) (r : Run (Client W) A)
      (k : A → Cmd (Client W) B)
      → Giving P s r
      → ((a : A) → P a → Gives Q (k a))
      → Giving Q s (and_then r k)
  Giving-and_then P Q s (done a s') k (p, e) h = Giving-from Q s s' (k a s') e ((h a p).ends s')
  Giving-and_then P Q s (stop c s') k e h = e
  Giving-and_then P Q s endless k e h = absurd e

  pub bind-Gives :
      {A B : Type 0} {P : A → Type 0} {Q : B → Type 0} {m : Cmd (Client W) A}
      {k : A → Cmd (Client W) B}
      → Gives P m
      → ((a : A) → P a → Gives Q (k a))
      → Gives Q (m >>= k)
  bind-Gives {P} {Q} {m} {k} hm hk = record {
    ends = λ s. Giving-and_then P Q s (m s) k (hm.ends s) hk;
  }

  pub pure-Gives : {A : Type 0} {P : A → Type 0} (a : A) → P a → Gives {W = W} P (pure a)
  pure-Gives a p = record { ends = λ s. (p, refl) }

  Outcome-Giving :
      {A : Type 0} (s : Client W) (r : Run (Client W) A) → Outcome s r → Giving (λ _. Unit {0}) s r
  Outcome-Giving s (done a s') h = (tt, h)
  Outcome-Giving s (stop c s') h = h
  Outcome-Giving s endless h = absurd h

  Giving-Outcome :
      {A : Type 0} (P : A → Type 0) (s : Client W) (r : Run (Client W) A)
      → Giving P s r
      → Outcome s r
  Giving-Outcome P s (done a s') (p, h) = h
  Giving-Outcome P s (stop c s') h = h
  Giving-Outcome P s endless h = absurd h

  pub IsSafe-Gives : {A : Type 0} {m : Cmd (Client W) A} → IsSafe m → Gives (λ _. Unit {0}) m
  IsSafe-Gives {m} h = record { ends = λ s. Outcome-Giving s (m s) (h.ends s) }

  pub Gives-IsSafe : {A : Type 0} {P : A → Type 0} {m : Cmd (Client W) A} → Gives P m → IsSafe m
  Gives-IsSafe {P} {m} h = record { ends = λ s. Giving-Outcome P s (m s) (h.ends s) }

  -- A command that goes on with a value of a property.
  pub bind-with-IsSafe :
      {A B : Type 0} {P : A → Type 0} {m : Cmd (Client W) A} {k : A → Cmd (Client W) B}
      → Gives P m
      → ((a : A) → P a → IsSafe (k a))
      → IsSafe (m >>= k)
  bind-with-IsSafe hm hk = Gives-IsSafe (bind-Gives hm λ a p. IsSafe-Gives (hk a p))

  pub if-Gives :
      {A : Type 0} {P : A → Type 0} (b : Bool) {m n : Cmd (Client W) A}
      → Gives P m
      → Gives P n
      → Gives P (if b then m else n)
  if-Gives true hm hn = hm
  if-Gives false hm hn = hn

  -- The first command is run where the test holds.
  pub then-Gives :
      {A : Type 0} {P : A → Type 0} (b : Bool) {m n : Cmd (Client W) A}
      → (b ≡ true → Gives P m)
      → Gives P n
      → Gives P (if b then m else n)
  then-Gives true hm hn = hm refl
  then-Gives false hm hn = hn

  pub else-Gives :
      {A : Type 0} {P : A → Type 0} (b : Bool) (m : Cmd (Client W) A) {n : Cmd (Client W) A}
      → b ≡ false
      → Gives P n
      → Gives P (if b then m else n)
  else-Gives true m h hn = cc
  else-Gives false m h hn = hn

  pub elim-Gives :
      {A B : Type 0} {P : B → Type 0} (o : Option A) {m : Cmd (Client W) B}
      {k : A → Cmd (Client W) B}
      → Gives P m
      → ((a : A) → o ≡ some a → Gives P (k a))
      → Gives P (elim o [ none ↦ m | some a ↦ k a ])
  elim-Gives none hm hk = hm
  elim-Gives (some a) hm hk = hk a refl

-- what a call whose code is not looked at gives
abbrev pub Maybe : {A : Type 0} → (A → Type 0) → Option A → Type 0
Maybe P none = Unit
Maybe P (some a) = P a

module _ {W : Type 0} {A : Type 0} where
  Giving-ignored :
      (P : A → Type 0) (s : Client W) (r : Run (Client W) A)
      → Giving P s r
      → Giving (Maybe P) s (ignored r)
  Giving-ignored P s (done a s') h = h
  Giving-ignored P s (stop c s') (code, h) = (tt, h)
  Giving-ignored P s endless h = absurd h

  pub ignoring-Gives :
      {P : A → Type 0} {m : Cmd (Client W) A} → Gives P m → Gives (Maybe P) (ignoring m)
  ignoring-Gives {P} {m} h = record { ends = λ s. Giving-ignored P s (m s) (h.ends s) }
