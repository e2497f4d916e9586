-- ===== src/Client/Names.antt =====
-- The operations of the client library on names: `sbp_mkdir` and `sbp_rmdir` of libc/dir.c, libc/chmod.c,
-- libc/chown.c, libc/move.c and libc/remove.c; and who it speaks for and to, libc/login.c.
use sbpfs.Common.{ℕ, ltb, ◌==◌, ◌||◌, [], ◌∷◌, length, codes}
use sbpfs.Common.Run.{ℤ, pos, minus, Cmd, return_if, pure, ◌>>=◌, ◌>>◌, get, put_state}
use sbpfs.Head.Strings.{Bytes}
use sbpfs.Client.State.{
  Client, Talker, Libc, at, max_username_len, max_password_len, max_hostname_len,
}
use sbpfs.Client.Request.{ent, simple_call}

abbrev pub arg0 : Bytes
arg0 = codes "Arg0"

abbrev pub arg1 : Bytes
arg1 = codes "Arg1"

module _ {W : Type 0} (talker : Talker W) (c : Libc) where
  unfoldable pub sbp_mkdir : Bytes → Cmd (Client W) ℤ
  unfolding simple_call
  sbp_mkdir filename =
      simple_call talker c (at (codes "dir.c") (codes "sbp_mkdir") 221) (codes "MKDIR") (codes "1")
        (ent arg0 filename ∷ [])

  unfoldable pub sbp_rmdir : Bytes → Cmd (Client W) ℤ
  unfolding simple_call
  sbp_rmdir filename =
      simple_call talker c (at (codes "dir.c") (codes "sbp_rmdir") 233) (codes "RMDIR") (codes "1")
        (ent arg0 filename ∷ [])

  unfoldable pub sbp_chmod : Bytes → ℕ → Cmd (Client W) ℤ
  unfolding simple_call
  sbp_chmod filename mode =
      simple_call talker c (at (codes "chmod.c") (codes "sbp_chmod") 36) (codes "CHMOD") (codes "2")
        (ent arg0 filename ∷ ent arg1 (c.sprintf (codes "%04x") mode) ∷ [])

  unfoldable pub sbp_chown : Bytes → Bytes → Cmd (Client W) ℤ
  unfolding simple_call
  sbp_chown filename newowner =
      simple_call talker c (at (codes "chown.c") (codes "sbp_chown") 32) (codes "CHOWN") (codes "2")
        (ent arg0 filename ∷ ent arg1 newowner ∷ [])

  unfoldable pub sbp_move : Bytes → Bytes → Cmd (Client W) ℤ
  unfolding simple_call
  sbp_move dst src =
      simple_call talker c (at (codes "move.c") (codes "sbp_move") 34) (codes "MOVE") (codes "2")
        (ent arg0 dst ∷ ent arg1 src ∷ [])

  unfoldable pub sbp_remove : Bytes → Cmd (Client W) ℤ
  unfolding simple_call
  sbp_remove filename =
      simple_call talker c (at (codes "remove.c") (codes "sbp_remove") 32) (codes "REMOVE")
        (codes "1") (ent arg0 filename ∷ [])

module _ {W : Type 0} where
  unfoldable pub sbp_login : Bytes → Bytes → Cmd (Client W) ℤ
  sbp_login username password = do
    return_if (ltb max_username_len (length username) || ltb max_password_len (length password))
        (minus 1)
    s ← get
    put_state (record s { user = username; pass = password })
    pure (pos 0)

  unfoldable pub sbp_sethost : Bytes → Cmd (Client W) ℤ
  sbp_sethost hostname = do
    return_if ((length hostname == 0) || ltb max_hostname_len (length hostname)) (minus 1)
    s ← get
    put_state (record s { host = hostname })
    pure (pos 0)
