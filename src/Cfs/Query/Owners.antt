-- ===== src/Cfs/Query/Owners.antt =====
-- Who may give a file away with `c_chown` of c_node/fs/cfs.c.
use sbpfs.Common.{ℕ, ◌≡◌, ◌≢◌, refl, List, Bool-cases, inl, inr, ne→==-false}
use sbpfs.Common.Run.{done, stop, pos}
use sbpfs.Cfs.State.{Dtree, Env, FileEntry, read_meta}
use sbpfs.Cfs.Meta
use sbpfs.Cfs.Perm.{own_check}
use sbpfs.Cfs.Path.{c_lookup}
use sbpfs.Cfs.Query.{c_chown}

-- A user other than the root cannot give a file that `c_lookup` finds to another user, whether it is
-- the user's own or not: `c_chown` returns 4, and the directory tree stays as it is.
pub c_chown-refused :
    (e : Env) (path : List ℕ) (newuid uid : ℕ) (dt : Dtree) (entry : FileEntry)
    → c_lookup e path dt ≡ done entry dt
    → uid ≢ 0
    → Meta.uid (read_meta dt entry.fb) 0 ≢ newuid
    → c_chown e path newuid uid dt ≡ stop (pos 4) dt
unfolding c_chown
c_chown-refused e path newuid uid dt entry look user other =
    let owner = Meta.uid (read_meta dt entry.fb) 0 in
    elim (Bool-cases (own_check uid owner)) [
      | inl own ↦ rw (look, own, ne→==-false owner newuid other, ne→==-false uid 0 user) refl
      | inr foreign ↦ rw (look, foreign) refl
    ]
