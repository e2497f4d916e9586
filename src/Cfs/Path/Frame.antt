-- ===== src/Cfs/Path/Frame.antt =====
-- The lookups of c_node/fs/cfs.c leave the directory tree as it is.
use sbpfs.Common.{ℕ, refl, Bool, true, false, ◌==◌, if◌then◌else◌, List, [], ◌∷◌}
use sbpfs.Common.Run.{pos, minus, pure, done, stop}
use sbpfs.Common.Quiet.{
  EndsIn, IsQuiet, get-IsQuiet, pure-IsQuiet, return_code-IsQuiet, bind-IsQuiet, or_endless-IsQuiet,
  or_return-IsQuiet, if-IsQuiet,
}
use sbpfs.Cfs.State.{Dtree, Env, malloc, s_dir}
use sbpfs.Cfs.Fat.{do_readfile}
use sbpfs.Cfs.Dir.{find_entry_by_name, entry_at}
use sbpfs.Cfs.Path.{find_in, c_find_entry, c_lookup, parts, skip_slash}

pub malloc-IsQuiet : (e : Env) (place size : ℕ) → IsQuiet (malloc e place size)
malloc-IsQuiet e place size = record { ends = λ s. by_grant s (e.grants place size) }
  where
    by_grant : (s : Dtree) (b : Bool) → EndsIn s (if b then done e.junk s else stop (minus 9) s)
    by_grant s true = refl
    by_grant s false = refl

find_in-IsQuiet : (e : Env) (fb : ℕ) (name : List ℕ) → IsQuiet (find_in e fb name)
unfolding find_in
find_in-IsQuiet e fb name = bind-IsQuiet get-IsQuiet λ dt.
    bind-IsQuiet (malloc-IsQuiet e 3 _) λ raw.
      bind-IsQuiet (or_endless-IsQuiet (do_readfile dt fb raw)) λ buf.
        bind-IsQuiet (or_endless-IsQuiet (find_entry_by_name buf name))
          λ found. bind-IsQuiet (or_return-IsQuiet (pos 1) found) λ p. pure-IsQuiet _

c_find_entry-IsQuiet : (e : Env) (fb : ℕ) (path : List (List ℕ)) → IsQuiet (c_find_entry e fb path)
unfolding c_find_entry
c_find_entry-IsQuiet e fb [] = return_code-IsQuiet (pos 1)
c_find_entry-IsQuiet e fb (name ∷ []) = find_in-IsQuiet e fb name
c_find_entry-IsQuiet e fb (name ∷ n ∷ rest) = bind-IsQuiet (find_in-IsQuiet e fb name) λ p.
    if-IsQuiet (p.type == s_dir) (c_find_entry-IsQuiet e p.fb (n ∷ rest))
      (return_code-IsQuiet (pos 1))

pub c_lookup-IsQuiet : (e : Env) (path : List ℕ) → IsQuiet (c_lookup e path)
unfolding c_lookup
c_lookup-IsQuiet e path = record { ends = λ dt. by_path dt (skip_slash path) }
  where
    by_path :
        (dt : Dtree) (p : List ℕ)
        → EndsIn dt (elim p [
          | [] ↦ pure (entry_at dt.area 0) dt
          | c ∷ s ↦ c_find_entry e (entry_at dt.area 0).fb (parts (c ∷ s) []) dt
        ])
    by_path dt [] = refl
    by_path dt (c ∷ s) = (c_find_entry-IsQuiet e _ (parts (c ∷ s) [])).ends dt
