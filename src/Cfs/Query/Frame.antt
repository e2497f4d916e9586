-- ===== src/Cfs/Query/Frame.antt =====
-- The operations of c_node/fs/cfs.c that only read leave the directory tree as it is.
use sbpfs.Common.{ℕ, ◌+◌, ◌/◌, List}
use sbpfs.Common.Mem.{Mem}
use sbpfs.Common.Run.{ℤ, minus, or_code}
use sbpfs.Common.Quiet.{
  IsQuiet, get-IsQuiet, pure-IsQuiet, bind-IsQuiet, or_endless-IsQuiet, or_return-IsQuiet,
  return_if-IsQuiet, or_code-IsQuiet,
}
use sbpfs.Cfs.State.{Env}
use sbpfs.Cfs.Meta
use sbpfs.Cfs.Block
use sbpfs.Cfs.Fat.{do_readfile}
use sbpfs.Cfs.Dir.{find_entry_by_name}
use sbpfs.Cfs.Path.{c_lookup, get_filename_from_path}
use sbpfs.Cfs.Path.Frame.{malloc-IsQuiet, c_lookup-IsQuiet}
use sbpfs.Cfs.Parent.{open_parent, read_buffer, entry_or}
use sbpfs.Cfs.Query.{
  named_meta, c_getblocknum, c_getblocks, block_nums, c_stat, c_opendir, c_readdir,
}
use sbpfs.Cfs.Blocks.{c_read}

open_parent-IsQuiet :
    (e : Env) (code kind : ℤ) (path : List ℕ)
    → IsQuiet (open_parent e code kind (or_code (minus 1)) path)
unfolding open_parent
open_parent-IsQuiet e code kind path =
    bind-IsQuiet (or_return-IsQuiet code (get_filename_from_path path)) λ (dir, name).
      bind-IsQuiet (or_code-IsQuiet (minus 1) (c_lookup-IsQuiet e dir)) λ parent.
        bind-IsQuiet (return_if-IsQuiet _ kind) λ _. bind-IsQuiet get-IsQuiet λ dt. pure-IsQuiet _

read_buffer-IsQuiet :
    (e : Env) (place blocks extra fb : ℕ) → IsQuiet (read_buffer e place blocks extra fb)
unfolding read_buffer
read_buffer-IsQuiet e place blocks extra fb =
    bind-IsQuiet get-IsQuiet λ dt.
      bind-IsQuiet (malloc-IsQuiet e place _) λ raw. or_endless-IsQuiet (do_readfile dt fb raw)

entry_or-IsQuiet : (code : ℤ) (pdata : Mem) (name : List ℕ) → IsQuiet (entry_or code pdata name)
unfolding entry_or
entry_or-IsQuiet code pdata name =
    bind-IsQuiet (or_endless-IsQuiet (find_entry_by_name pdata name))
      λ found. or_return-IsQuiet code found

named_meta-IsQuiet : (e : Env) (place : ℕ) (path : List ℕ) → IsQuiet (named_meta e place path)
unfolding named_meta
named_meta-IsQuiet e place path = bind-IsQuiet (open_parent-IsQuiet e (minus 1) (minus 1) path) λ p.
    bind-IsQuiet (read_buffer-IsQuiet e place _ 0 p.entry.fb) λ pdata.
      bind-IsQuiet (entry_or-IsQuiet (minus 1) pdata p.filename)
        λ ofile. bind-IsQuiet get-IsQuiet λ dt. pure-IsQuiet _

c_getblocknum-IsQuiet : (e : Env) (path : List ℕ) → IsQuiet (c_getblocknum e path)
unfolding c_getblocknum
c_getblocknum-IsQuiet e path =
    bind-IsQuiet (named_meta-IsQuiet e 16 path) λ (fb, meta). pure-IsQuiet _

c_getblocks-IsQuiet : (e : Env) (path : List ℕ) → IsQuiet (c_getblocks e path)
unfolding c_getblocks
c_getblocks-IsQuiet e path = bind-IsQuiet (named_meta-IsQuiet e 17 path) λ (fb, meta).
    bind-IsQuiet (read_buffer-IsQuiet e 18 (Meta.blocks meta 0) 0 fb)
      λ buf. or_endless-IsQuiet (block_nums (Meta.strbase meta 0 / Block.size + 1) 64 buf)

c_stat-IsQuiet : (e : Env) (uid : ℕ) (path : List ℕ) → IsQuiet (c_stat e uid path)
unfolding c_stat
c_stat-IsQuiet e uid path = bind-IsQuiet (open_parent-IsQuiet e (minus 1) (minus 1) path) λ p.
    bind-IsQuiet (read_buffer-IsQuiet e 15 _ 0 p.entry.fb) λ pdata.
      bind-IsQuiet (entry_or-IsQuiet (minus 1) pdata p.filename) λ ofile.
        bind-IsQuiet get-IsQuiet
          λ dt. bind-IsQuiet (return_if-IsQuiet _ (minus 4)) λ _. pure-IsQuiet _

c_opendir-IsQuiet : (e : Env) (uid : ℕ) (path : List ℕ) → IsQuiet (c_opendir e uid path)
unfolding c_opendir
c_opendir-IsQuiet e uid path =
    bind-IsQuiet (or_code-IsQuiet (minus 1) (c_lookup-IsQuiet e path)) λ entry.
      bind-IsQuiet get-IsQuiet
        λ dt. bind-IsQuiet (return_if-IsQuiet _ (minus 4)) λ _. pure-IsQuiet _

c_readdir-IsQuiet : (e : Env) (fb entnum : ℕ) → IsQuiet (c_readdir e fb entnum)
unfolding c_readdir
c_readdir-IsQuiet e fb entnum = bind-IsQuiet get-IsQuiet λ dt.
    bind-IsQuiet (return_if-IsQuiet _ (minus 1))
      λ _. bind-IsQuiet (read_buffer-IsQuiet e 21 _ 0 fb) λ buf. pure-IsQuiet _

c_read-IsQuiet : (e : Env) (fb offset length : ℕ) → IsQuiet (c_read e fb offset length)
unfolding c_read
c_read-IsQuiet e fb offset length = bind-IsQuiet get-IsQuiet λ dt.
    bind-IsQuiet (return_if-IsQuiet _ (minus 1)) λ _.
      bind-IsQuiet (malloc-IsQuiet e 19 _)
        λ raw. bind-IsQuiet (or_endless-IsQuiet (do_readfile dt fb raw)) λ buf. pure-IsQuiet _

-- The operations that only ask leave the directory tree as it is, whether they return a value or a
-- code.
pub queries-IsQuiet :
    (e : Env) (path : List ℕ) (uid fb n length : ℕ)
    → IsQuiet (c_lookup e path)
      × IsQuiet (c_getblocknum e path)
      × IsQuiet (c_getblocks e path)
      × IsQuiet (c_stat e uid path)
      × IsQuiet (c_opendir e uid path)
      × IsQuiet (c_readdir e fb n)
      × IsQuiet (c_read e fb n length)
queries-IsQuiet e path uid fb n length = (
  c_lookup-IsQuiet e path,
  c_getblocknum-IsQuiet e path,
  c_getblocks-IsQuiet e path,
  c_stat-IsQuiet e uid path,
  c_opendir-IsQuiet e uid path,
  c_readdir-IsQuiet e fb n,
  c_read-IsQuiet e fb n length,
)
