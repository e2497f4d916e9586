-- ===== src/Node/Tests/Threads.antt =====
-- Two threads of a data node, d_node/haha, with the blocks 3 and 4.
use sbpfs.Common.{
  ℕ, ◌+◌, ◌≡◌, refl, arith, ◌==◌, ==→eq, Bool-cases, inl, inr, if◌then◌else◌, str_eq, some, none,
  [],
}
use sbpfs.Node.{ListEntry}
use sbpfs.Node.Files.{DNode, File, getpath}
use sbpfs.Node.Listing.{empty_listing}
use sbpfs.Node.Tests.{unary_env}
use sbpfs.Node.Threads.{
  idle, starting, named, opened, has_read, System, set_pc, found, Step, accept, name, open_file,
  read, Runs,
}
use sbpfs.Node.Threads.Exclusive.{Reach, here, next, IsAlone, IsAtomic, Reach-IsAtomic}
use sbpfs.Node.Threads.Race.{Runs-mixed}

abbrev file_3 : File
file_3 = record { size = 100; bytes = λ a. a + 3 }

abbrev file_4 : File
file_4 = record { size = 100; bytes = λ a. a + 4 }

abbrev node : DNode
unfolding getpath
node = record {
  files = λ p.
      if str_eq p (getpath unary_env 3)
      then some file_3
      else if str_eq p (getpath unary_env 4)
      then some file_4
      else none;
  blocklist = [];
  blolist = [];
  listing = empty_listing;
}

abbrev read_of : ℕ → ListEntry
read_of n = record { req = 1; block_num = n; offset = 5; length = 2; content = [] }

abbrev idle_system : System
idle_system = record { node = node; path = []; pc = λ _. idle }

Runs-mixed_example :
    (t : System) × Runs unary_env idle_system t
    × (t.pc 0 ≡ has_read (read_of 3) (some (found unary_env (read_of 3) file_4)))
    × (t.node ≡ node)
unfolding getpath
Runs-mixed_example =
    Runs-mixed unary_env (read_of 3) (read_of 4) 0 1 (omega arith) idle_system file_4 refl refl refl
      refl

abbrev accepted : System
accepted = record idle_system { pc = set_pc 0 (starting (read_of 3)) idle_system.pc }

abbrev has_path : System
unfolding getpath
has_path = record accepted {
  path = getpath unary_env 3;
  pc = set_pc 0 (named (read_of 3)) accepted.pc;
}

abbrev has_file : System
has_file = record has_path { pc = set_pc 0 (opened (read_of 3) has_path.path) has_path.pc }

abbrev finished : System
finished = record has_file {
  pc = set_pc 0 (has_read (read_of 3) (some (found unary_env (read_of 3) file_3))) has_file.pc;
}

accepted-IsAlone : IsAlone 0 accepted
accepted-IsAlone j r h = elim (Bool-cases (j == 0)) [
  | inl same ↦ ==→eq j 0 same
  | inr other ↦ absurd (ground (arith, h, other))
]

to_file : Reach unary_env idle_system has_file
unfolding getpath
to_file =
    next 0
      (next 0 (next 0 here (accept (read_of 3) refl refl) tt) (name (read_of 3) refl refl)
        accepted-IsAlone)
      (open_file (read_of 3) file_3 refl refl refl) tt

the_read : Step unary_env 0 has_file finished
unfolding getpath
the_read = read (read_of 3) has_file.path file_3 refl refl refl refl

Reach-IsAtomic_example : IsAtomic unary_env 0 has_file finished the_read
Reach-IsAtomic_example = Reach-IsAtomic (λ j. refl) to_file 0 the_read
