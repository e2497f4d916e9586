-- ===== src/Cfs/Create/Flags.antt =====
-- The open flags of `c_open` in c_node/fs/cfs.c.
use mathlib.Core.Path.{fun_ext}
use sbpfs.Common.{ℕ, ◌<◌, ◌≡◌, refl, true, ◌&&◌, ◌||◌, List, ◌∙◌, sym, Bool, arith}
use sbpfs.Common.Tables.{and_parts, each_below, each_below_lem}
use sbpfs.Cfs.State.{Env, sbp_o_wronly, sbp_o_rdonly, sbp_o_rdwr, sbp_o_creat}
use sbpfs.Cfs.Create.{given, open_check, open_path, c_open}

set_flags :
    each_below 256 (λ f.
      given f sbp_o_wronly && (given f sbp_o_rdonly && (given f sbp_o_rdwr && given f sbp_o_creat)))
    ≡ true
unfolding each_below given
set_flags = refl

flags_given :
    (f : ℕ)
    → f < 256
    → (given f sbp_o_wronly ≡ true)
      × (given f sbp_o_rdonly ≡ true)
      × (given f sbp_o_rdwr ≡ true)
      × (given f sbp_o_creat ≡ true)
flags_given f h =
    and_parts (given f sbp_o_wronly) (given f sbp_o_rdonly) (given f sbp_o_rdwr)
      (given f sbp_o_creat) (each_below_lem _ 256 set_flags f h)

either : (a b : Bool) → ((a && true) || (b && true) || (a && b && true)) ≡ (a || b)
either a b = ground arith

open_check-or : (f : ℕ) (w r : Bool) → f < 256 → open_check f w r ≡ (w || r)
unfolding open_check
open_check-or f w r h = let all = flags_given f h in rw (all.0, all.1, all.2) (either w r)

given-creat : (f : ℕ) → f < 256 → given f sbp_o_creat ≡ true
given-creat f h = (flags_given f h).3

-- `c_open` does not depend on its open flags, which are a byte: its tests join the flag with `|`
-- where `&` is meant, so every test holds. An open without `SBP_O_CREAT` creates the file too.
pub c_open-ignores_flags :
    (e : Env) (path : List ℕ) (f g mode uid : ℕ)
    → f < 256
    → g < 256
    → c_open e path f mode uid ≡ c_open e path g mode uid
unfolding c_open
c_open-ignores_flags e path f g mode uid hf hg =
    λ i. open_path e path (checks i) (creates i) mode uid
  where
    checks : open_check f ≡ open_check g
    checks = fun_ext λ w. fun_ext λ r. open_check-or f w r hf ∙ sym (open_check-or g w r hg)

    creates : given f sbp_o_creat ≡ given g sbp_o_creat
    creates = given-creat f hf ∙ sym (given-creat g hg)
