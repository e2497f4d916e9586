-- ===== src/Node/Threads.antt =====
-- The threads of a data node: the loop of `main` in d_node/haha/d_node.c starts one for each connection,
-- and all of them use the one buffer `path` of d_node/haha/blockman.h. A step is what a thread does
-- between two uses of what it shares with the others; `getpath` is taken as one step.
pub mod Exclusive
pub mod Race
use sbpfs.Common.{
  ℕ, ◌≡◌, ◌≢◌, refl, ◌==◌, ==-refl, ne→==-false, if◌then◌else◌, Option, none, some, take,
}
use sbpfs.Common.Run.{done}
use sbpfs.Head.Strings.{Bytes}
use sbpfs.Node.{ListEntry}
use sbpfs.Node.Files.{
  NodeEnv, DNode, File, getpath, read_at, bytes_from, write_at, set_file, createblock,
}

-- Where a thread stands: before `getpath`, between `getpath` and `fopen`, with an open file, or with
-- what it has read (`none` for -1) or written.
pub data Pc : Type 0 where
  idle : Pc
  starting named : ListEntry → Pc
  opened : ListEntry → Bytes → Pc
  has_read : ListEntry → Option Bytes → Pc
  has_written : ListEntry → Pc

pub record System : Type 0 where
  pub node : DNode
  pub path : Bytes
  pub pc : ℕ → Pc

abbrev pub set_pc : ℕ → Pc → (ℕ → Pc) → ℕ → Pc
set_pc i c pc j = if j == i then c else pc j

abbrev pub found : NodeEnv → ListEntry → File → Bytes
found e r f = bytes_from r.length (read_at f r.offset e.junk) 0

abbrev pub changed : ListEntry → File → File
changed r f = write_at f r.offset (take r.length r.content)

-- A step of thread `i`: `accept` and `pthread_create` with a request, `getpath`, `fopen`, the error exit
-- of `readblock`, the creation of a block that `writeblock` does not find, `fread` and `fwrite`.
pub data Step (e : NodeEnv) (i : ℕ) (s t : System) : Type 0 where
  accept :
      (r : ListEntry)
      → s.pc i ≡ idle
      → t ≡ record s { pc = set_pc i (starting r) s.pc }
      → Step e i s t
  name :
      (r : ListEntry)
      → s.pc i ≡ starting r
      → t ≡ record s { path = getpath e r.block_num; pc = set_pc i (named r) s.pc }
      → Step e i s t
  open_file :
      (r : ListEntry) (f : File)
      → s.pc i ≡ named r
      → s.node.files s.path ≡ some f
      → t ≡ record s { pc = set_pc i (opened r s.path) s.pc }
      → Step e i s t
  no_file :
      (r : ListEntry)
      → s.pc i ≡ named r
      → r.req ≡ 1
      → s.node.files s.path ≡ none
      → t ≡ record s { pc = set_pc i (has_read r none) s.pc }
      → Step e i s t
  create :
      (r : ListEntry) (d : DNode)
      → s.pc i ≡ named r
      → r.req ≢ 1
      → s.node.files s.path ≡ none
      → createblock e r.block_num s.node ≡ done tt d
      → t ≡ record s { node = d; path = getpath e r.block_num }
      → Step e i s t
  read :
      (r : ListEntry) (p : Bytes) (f : File)
      → s.pc i ≡ opened r p
      → r.req ≡ 1
      → s.node.files p ≡ some f
      → t ≡ record s { pc = set_pc i (has_read r (some (found e r f))) s.pc }
      → Step e i s t
  write :
      (r : ListEntry) (p : Bytes) (f : File)
      → s.pc i ≡ opened r p
      → r.req ≢ 1
      → s.node.files p ≡ some f
      → t ≡ record s { node = set_file p (changed r f) s.node; pc = set_pc i (has_written r) s.pc }
      → Step e i s t

-- Any run of the threads.
pub data Runs (e : NodeEnv) (s : System) : System → Type 0 where
  at_start : Runs e s s
  after : {t u : System} (i : ℕ) → Runs e s t → Step e i t u → Runs e s u

pub set_pc-own : (i : ℕ) (c : Pc) (pc : ℕ → Pc) → set_pc i c pc i ≡ c
set_pc-own i c pc = rw (==-refl i) refl

pub set_pc-other : (i j : ℕ) (c : Pc) (pc : ℕ → Pc) → j ≢ i → set_pc i c pc j ≡ pc j
set_pc-other i j c pc ne = rw (ne→==-false j i ne) refl
