-- ===== src/Common/Quiet.antt =====
-- Commands that leave the state as it is, whatever they return.

use mathlib.Core.Path.{◌≡◌, refl, subst}
use mathlib.Core.Bool.{Bool, true, false}
use mathlib.Core.Option.{Option, none, some}
use sbpfs.Common.Tests.{if◌then◌else◌}
use sbpfs.Common.Run.{
  ℤ, Run, done, stop, endless, Cmd, pure, return_code, return_if, and_then, ◌>>=◌, get, or_return,
  or_endless, with_code, or_code,
}

module _ {S : Type 0} where
  -- the state at the end of a run, if it ends
  abbrev pub EndsIn : {A : Type 0} → S → Run S A → Type 0
  EndsIn s (done a s') = s' ≡ s
  EndsIn s (stop c s') = s' ≡ s
  EndsIn s endless = Unit

  pub record IsQuiet {A : Type 0} (m : Cmd S A) : Type 0 where
    pub ends : (s : S) → EndsIn s (m s)

  EndsIn-and_then :
      {A B : Type 0} (s : S) (r : Run S A) (k : A → Cmd S B)
      → EndsIn s r
      → ((a : A) → IsQuiet (k a))
      → EndsIn s (and_then r k)
  EndsIn-and_then s (done a s') k e h = subst (λ t. EndsIn t (k a s')) e ((h a).ends s')
  EndsIn-and_then s (stop c s') k e h = e
  EndsIn-and_then s endless k e h = tt

  pub bind-IsQuiet :
      {A B : Type 0} {m : Cmd S A} {k : A → Cmd S B}
      → IsQuiet m
      → ((a : A) → IsQuiet (k a))
      → IsQuiet (m >>= k)
  bind-IsQuiet {m} {k} hm hk = record { ends = λ s. EndsIn-and_then s (m s) k (hm.ends s) hk }

  pub get-IsQuiet : IsQuiet get
  get-IsQuiet = record { ends = λ s. refl }

  pub pure-IsQuiet : {A : Type 0} (a : A) → IsQuiet (pure a)
  pure-IsQuiet a = record { ends = λ s. refl }

  pub return_code-IsQuiet : {A : Type 0} (c : ℤ) → IsQuiet (return_code {A = A} c)
  return_code-IsQuiet c = record { ends = λ s. refl }

  pub or_endless-IsQuiet : {A : Type 0} (o : Option A) → IsQuiet (or_endless o)
  or_endless-IsQuiet none = record { ends = λ s. tt }
  or_endless-IsQuiet (some a) = record { ends = λ s. refl }

  pub or_return-IsQuiet : {A : Type 0} (c : ℤ) (o : Option A) → IsQuiet (or_return c o)
  or_return-IsQuiet c none = record { ends = λ s. refl }
  or_return-IsQuiet c (some a) = record { ends = λ s. refl }

  pub return_if-IsQuiet : (b : Bool) (c : ℤ) → IsQuiet (return_if b c)
  return_if-IsQuiet true c = record { ends = λ s. refl }
  return_if-IsQuiet false c = record { ends = λ s. refl }

  EndsIn-with_code :
      {A : Type 0} (s : S) (c : ℤ) (r : Run S A) → EndsIn s r → EndsIn s (with_code c r)
  EndsIn-with_code s c (done a s') e = e
  EndsIn-with_code s c (stop c' s') e = e
  EndsIn-with_code s c endless e = tt

  pub or_code-IsQuiet : {A : Type 0} (c : ℤ) {m : Cmd S A} → IsQuiet m → IsQuiet (or_code c m)
  or_code-IsQuiet c {m} h = record { ends = λ s. EndsIn-with_code s c (m s) (h.ends s) }

  pub if-IsQuiet :
      {A : Type 0} (b : Bool) {m n : Cmd S A} → IsQuiet m → IsQuiet n → IsQuiet (if b then m else n)
  if-IsQuiet true hm hn = hm
  if-IsQuiet false hm hn = hn
