-- ===== src/Head/Literal.antt =====
-- Texts without an end of a string or of a line, told by evaluation, for the names of entries.
use sbpfs.Common.{◌≡◌, ◌≢◌, arith, Bool, true, ◌==◌, ◌&&◌, not, [], ◌∷◌, All}
use sbpfs.Head.Strings.{Bytes}
use sbpfs.Head.Search.{IsPlain, IsClean}

abbrev pub is_plain : Bytes → Bool
is_plain [] = true
is_plain (c ∷ s) = not (c == 0) && (not (c == 13) && is_plain s)

abbrev pub is_name : Bytes → Bool
is_name [] = true
is_name (c ∷ s) = not (c == b':') && is_name s

pub is_plain-IsPlain : (s : Bytes) → is_plain s ≡ true → All IsPlain s
is_plain-IsPlain [] h = tt
is_plain-IsPlain (c ∷ s) h = ((ground arith, ground arith), is_plain-IsPlain s (ground arith))

no_colon : (s : Bytes) → is_name s ≡ true → All (λ c. c ≢ b':') s
no_colon [] h = tt
no_colon (c ∷ s) h = (ground arith, no_colon s (ground arith))

pub IsClean-entry :
    (name value : Bytes)
    → is_plain name ≡ true
    → is_name name ≡ true
    → All IsPlain value
    → IsClean (record { name = name; value = value })
IsClean-entry name value p q v = record {
  name = is_plain-IsPlain name p;
  no_colon = no_colon name q;
  value = v;
}
