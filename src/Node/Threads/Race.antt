-- ===== src/Node/Threads/Race.antt =====
-- Two threads of a data node at once, which nothing keeps apart (d_node/haha/d_node.c).
use sbpfs.Common.{ℕ, ◌≡◌, ◌≢◌, refl, sym, ◌∙◌, some}
use sbpfs.Node.{ListEntry}
use sbpfs.Node.Files.{NodeEnv, File, getpath}
use sbpfs.Node.Threads.{
  idle, starting, named, opened, has_read, System, set_pc, set_pc-own, set_pc-other, found, accept,
  name, open_file, read, Runs, at_start, after,
}

module _ (e : NodeEnv) (a b : ListEntry) (i j : ℕ) (apart : i ≢ j) (s : System) (f : File)
    (a_reads : a.req ≡ 1) (i_idle : s.pc i ≡ idle) (j_idle : s.pc j ≡ idle)
    (there : s.node.files (getpath e b.block_num) ≡ some f) where
  abbrev s1 : System
  s1 = record s { pc = set_pc i (starting a) s.pc }

  abbrev s2 : System
  s2 = record s { pc = set_pc j (starting b) s1.pc }

  abbrev s3 : System
  s3 = record s { path = getpath e a.block_num; pc = set_pc i (named a) s2.pc }

  abbrev s4 : System
  s4 = record s { path = getpath e b.block_num; pc = set_pc j (named b) s3.pc }

  abbrev s5 : System
  s5 = record s4 { pc = set_pc i (opened a s4.path) s4.pc }

  abbrev s6 : System
  s6 = record s4 { pc = set_pc i (has_read a (some (found e a f))) s5.pc }

  -- Where two threads of a data node are idle and one block has a file, there is a run in which the
  -- other thread, which is to read any block, reads the bytes of that file: the second thread sets
  -- `path` between the first one's `getpath` and its `fopen`.
  pub Runs-mixed :
      (t : System) × Runs e s t × (t.pc i ≡ has_read a (some (found e a f))) × (t.node ≡ s.node)
  Runs-mixed =
      let back : j ≢ i = λ same. apart (sym same) in
      let r1 = after i at_start (accept a i_idle refl) in
      let r2 = after j r1 (accept b (set_pc-other i j (starting a) s.pc back ∙ j_idle) refl) in
      let r3 = after i r2 (
        name a (set_pc-other j i (starting b) s1.pc apart ∙ set_pc-own i (starting a) s.pc) refl) in
      let r4 =
        after j r3
          (name b (set_pc-other i j (named a) s2.pc back ∙ set_pc-own j (starting b) s1.pc) refl) in
      let r5 = after i r4 (
        open_file a f (set_pc-other j i (named b) s3.pc apart ∙ set_pc-own i (named a) s2.pc) there
          refl) in
      let r6 =
        after i r5 (read a s4.path f (set_pc-own i (opened a s4.path) s4.pc) a_reads there refl) in
      (s6, r6, set_pc-own i (has_read a (some (found e a f))) s5.pc, refl)
