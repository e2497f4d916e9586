-- ===== src/Client/Ends.antt =====
-- Calls of the client library that end with a value or with -1, as equations.

use sbpfs.Common.{◌≡◌, ◌⊎◌, inl, inr, refl, ap, ◌∙◌}
use sbpfs.Common.Run.{Run, done, stop, endless, Cmd, minus, and_then}
use sbpfs.Client.State.{Client}
use sbpfs.Client.Safe.{Outcome, kept}
use sbpfs.Client.Gives.{Giving}

-- A run that ends with a value that has a property, or with -1, and leaves the descriptors, the user
-- and the host as they are.
abbrev pub Ends : {W A : Type 0} → (A → Type 0) → Client W → Run (Client W) A → Type 0
Ends {W} {A} P s r =
    ((a : A) × (s' : Client W) × (r ≡ done a s') × P a × (kept s' ≡ kept s))
    ⊎ ((s' : Client W) × (r ≡ stop (minus 1) s') × (kept s' ≡ kept s))

module _ {W : Type 0} where
  pub Ends-safe :
      {A : Type 0} (s : Client W) (r : Run (Client W) A) → Outcome s r → Ends (λ _. Unit {0}) s r
  Ends-safe s (done a s') h = inl (a, s', refl, tt, h)
  Ends-safe s (stop c s') (code, h) = inr (s', (λ i. stop (code i) s'), h)
  Ends-safe s endless h = absurd h

  pub Ends-and_then :
      {A B : Type 0} (P : A → Type 0) (Q : B → Type 0) (s : Client W) (r : Run (Client W) A)
      (k : A → Cmd (Client W) B)
      → Ends P s r
      → ((a : A) (t : Client W) → P a → Ends Q t (k a t))
      → Ends Q s (and_then r k)
  Ends-and_then P Q s r k e h = elim e [
    | inr (s', stopped, same) ↦ inr (s', ap (λ x. and_then x k) stopped, same)
    | inl (a, s', ran, p, same) ↦ elim (h a s' p) [
      | inl (b, t, ran', q, same') ↦ inl (b, t, ap (λ x. and_then x k) ran ∙ ran', q, same' ∙ same)
      | inr (t, stopped, same') ↦ inr (t, ap (λ x. and_then x k) ran ∙ stopped, same' ∙ same)
    ]
  ]

  pub Ends-Giving :
      {A : Type 0} {P : A → Type 0} (s : Client W) (r : Run (Client W) A)
      → Giving P s r
      → Ends P s r
  Ends-Giving s (done a s') (p, h) = inl (a, s', refl, p, h)
  Ends-Giving s (stop c s') (code, h) = inr (s', (λ i. stop (code i) s'), h)
  Ends-Giving s endless h = absurd h

  pub pure-Ends : {A : Type 0} (P : A → Type 0) (a : A) (s : Client W) → P a → Ends P s (done a s)
  pure-Ends P a s p = inl (a, s, refl, p, refl)
