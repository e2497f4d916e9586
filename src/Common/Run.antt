-- ===== src/Common/Run.antt =====
-- How a C function ends: it returns a value, it returns early with a code, or a loop does not end
-- within the rounds that it is given. Each ending carries the state at that moment.
use sbpfs.Common.Tests.{ltb, if◌then◌else◌}
use Prim.Native.Nat.{ℕ, ◌-◌, ◌^◌}
use mathlib.Core.Bool.{Bool, true, false}
use mathlib.Core.Option.{Option, none, some}

-- A C `int`. `negsuc n` is -(n + 1).
pub data ℤ : Type 0 where
  pos : ℕ → ℤ
  negsuc : ℕ → ℤ

-- -n, for n > 0
abbrev pub minus : ℕ → ℤ
minus n = negsuc (n - 1)

-- A `u32_t` that is returned as an `int`.
unfoldable pub int_of_u32 : ℕ → ℤ
int_of_u32 w = if ltb w (2 ^ 31) then pos w else negsuc (2 ^ 32 - 1 - w)

pub data Run (S A : Type 0) : Type 0 where
  done : A → S → Run S A
  stop : ℤ → S → Run S A
  endless : Run S A

abbrev pub Cmd : Type 0 → Type 0 → Type 0
Cmd S A = S → Run S A

module _ {S : Type 0} where
  abbrev pub pure : {A : Type 0} → A → Cmd S A
  pure = done

  -- `return c;`
  abbrev pub return_code : {A : Type 0} → ℤ → Cmd S A
  return_code = stop

  -- `if (b) return c;`
  abbrev pub return_if : Bool → ℤ → Cmd S (Unit {0})
  return_if true c = stop c
  return_if false c = done tt

  abbrev pub and_then : {A B : Type 0} → Run S A → (A → Cmd S B) → Run S B
  and_then (done a s) k = k a s
  and_then (stop c s) k = stop c s
  and_then endless k = endless

  infixl 5 ◌>>=◌ ◌>>◌
  abbrev pub ◌>>=◌ : {A B : Type 0} → Cmd S A → (A → Cmd S B) → Cmd S B
  (m >>= k) s = and_then (m s) k

  abbrev pub ◌>>◌ : {B : Type 0} → Cmd S (Unit {0}) → Cmd S B → Cmd S B
  m >> k = m >>= λ _. k

  -- the state, and a new one
  abbrev pub get : Cmd S S
  get s = done s s

  abbrev pub put_state : S → Cmd S (Unit {0})
  put_state s _ = done tt s

  -- A value, or the early return with a code.
  abbrev pub or_return : {A : Type 0} → ℤ → Option A → Cmd S A
  or_return c none = stop c
  or_return c (some a) = done a

  -- A loop's result, `none` where the rounds ran out.
  abbrev pub or_endless : {A : Type 0} → Option A → Cmd S A
  or_endless none s = endless
  or_endless (some a) s = done a s

  abbrev pub with_code : {A : Type 0} → ℤ → Run S A → Run S A
  with_code c (done a s) = done a s
  with_code c (stop _ s) = stop c s
  with_code c endless = endless

  -- `if (ret) return c;` after a call
  abbrev pub or_code : {A : Type 0} → ℤ → Cmd S A → Cmd S A
  or_code c m s = with_code c (m s)

  abbrev pub ignored : {A : Type 0} → Run S A → Run S (Option A)
  ignored (done a s) = done (some a) s
  ignored (stop _ s) = done none s
  ignored endless = endless

  -- a call whose code is not looked at
  abbrev pub ignoring : {A : Type 0} → Cmd S A → Cmd S (Option A)
  ignoring m s = ignored (m s)

  abbrev pub ended : Option S → Run S (Unit {0})
  ended none = endless
  ended (some s) = done tt s

  -- a loop that changes the state, `none` where its rounds ran out
  abbrev pub modify : (S → Option S) → Cmd S (Unit {0})
  modify f s = ended (f s)
