-- ===== src/Head/Strings.antt =====
-- C strings: `strstr`. A string ends before its first 0, or with the list.
use sbpfs.Common.{
  ℕ, Option, none, some, ◌==◌, ◌&&◌, Bool, true, false, if◌then◌else◌, List, [], ◌∷◌,
}

abbrev pub Bytes : Type 0
Bytes = List ℕ

unfoldable pub starts_with : Bytes → Bytes → Bool
starts_with [] text = true
starts_with (n ∷ needle) [] = false
starts_with (n ∷ needle) (c ∷ text) = (n == c) && starts_with needle text

abbrev pub cons_before : ℕ → Option (Bytes × Bytes) → Option (Bytes × Bytes)
cons_before c none = none
cons_before c (some (before, rest)) = some (c ∷ before, rest)

-- What stands before the first place where `needle` starts, and what stands from there on.
unfoldable pub strstr : Bytes → Bytes → Option (Bytes × Bytes)
unfolding starts_with
strstr needle [] = none
strstr needle (c ∷ text) =
    if c == 0
    then none
    else if starts_with needle (c ∷ text)
    then some ([], c ∷ text)
    else cons_before c (strstr needle text)

-- `if ((p = strstr(…)) == NULL) error`
abbrev pub with_found {ℓ} :
    {A : Type ℓ} → Option (Bytes × Bytes) → (Bytes → Bytes → Option A) → Option A
with_found none go = none
with_found (some (before, rest)) go = go before rest
