-- ===== src/Cfs/Disk/Durable.antt =====
-- A file that `do_writefile` has written, after `save_disk` and `open_disk` (c_node/fs/cfs.c).
use mathlib.Core.Path.{subst}
use sbpfs.Common.{
  ℕ, suc, ◌+◌, ◌*◌, ◌^◌, ◌≤◌, ◌<◌, ◌≡◌, sym, ap, ◌∙◌, arith, true, false, ◌==◌, ==→eq, Bool-cases,
  inl, inr, Option, none, some, List, [], ◌∷◌, length, str_eq,
}
use sbpfs.Common.Mem.{Mem, u64_mod}
use sbpfs.Common.Run.{done}
use sbpfs.Cfs.State.{Dtree, Env}
use sbpfs.Cfs.Meta
use sbpfs.Cfs.Fat.{do_writefile, do_readfile}
use sbpfs.Cfs.Fat.Valid.{IsValid, Generous}
use sbpfs.Cfs.Fat.Chain.{
  IsChain, has, Holds, Holds-agree, Holds-frame, IsChain-frame, do_readfile-IsRead,
}
use sbpfs.Cfs.Fat.RoundTrip.{IsStored, do_writefile-IsStored, chain_lt}
use sbpfs.Cfs.Fat.Label.{do_writefile-label}
use sbpfs.Cfs.Disk.Layout.{Image}
use sbpfs.Cfs.Disk.Load.{IsReading}
use sbpfs.Cfs.Disk.Pointers.{IsTyped}
use sbpfs.Cfs.Disk.RoundTrip.{IsWriting, IsReopened, open_disk-save_disk}
use sbpfs.Cfs.Disk.{Os, Files, Disk, old_image, open_disk, save_disk}

-- The entries of a chain are numbers of sectors, or the end.
chain_entry :
    (fat : ℕ → ℕ) (num a s : ℕ) (ts : List ℕ)
    → num < 2 ^ 32
    → IsChain fat num s ts
    → has a (s ∷ ts) ≡ true
    → fat a < 2 ^ 32
chain_entry fat num a s [] small (p, e) h = ground (arith, p, e, h)
chain_entry fat num a s (t ∷ ts) small (p, e, lt, c) h = elim (Bool-cases (a == s)) [
  | inl same ↦
      let at : fat a ≡ t = ap fat (==→eq a s same) ∙ e in
      omega (arith, at, first_lt fat num t ts c, small)
  | inr other ↦ chain_entry fat num a t ts small c (ground (arith, h, other))
]
  where
    first_lt : (fat' : ℕ → ℕ) (num' s' : ℕ) (ts' : List ℕ) → IsChain fat' num' s' ts' → s' < num'
    first_lt fat' num' s' [] c' = c'.0
    first_lt fat' num' s' (t' ∷ ts') c' = c'.0

-- The table after a file has been written has entries of 32 bits, where it had before.
stored_entries :
    (dt dt' : Dtree) (fb size k : ℕ) (old ts : List ℕ) (buf : Mem)
    → IsStored dt fb old size k buf ts dt'
    → ((a : ℕ) → dt.fat a < 2 ^ 32)
    → (a : ℕ) → dt'.fat a < 2 ^ 32
stored_entries dt dt' fb size k old ts buf w before a = elim (Bool-cases (has a (fb ∷ ts))) [
  | inl own ↦
      chain_entry dt'.fat dt'.sb.fat_num a fb ts (omega (arith, w.valid.most, w.valid.data_secs))
        w.chain own
  | inr foreign ↦ elim (Bool-cases (has a old)) [
    | inl freed ↦ omega (arith, w.freed a freed foreign)
    | inr other ↦
        omega
          (arith, before a, w.others a (ground (arith, other, foreign)) (ground (arith, foreign)))
  ]
]

some_inj : {dt dt' : Dtree} → ◌≡◌ {A = Option Dtree} (some dt) (some dt') → dt ≡ dt'
some_inj {dt} h = ap (λ o. elim o [ none ↦ dt | some d ↦ d ]) h

stored-IsTyped :
    (e : Env) (dt dt' : Dtree) (fb size k : ℕ) (old ts : List ℕ) (buf : Mem)
    → IsStored dt fb old size k buf ts dt'
    → do_writefile e fb buf size dt ≡ some dt'
    → IsTyped dt
    → IsTyped dt'
stored-IsTyped e dt dt' fb size k old ts buf w run ty =
    let same = do_writefile-label e fb size buf dt dt' run in
    record {
      name = ap (λ l. l.0) same ∙ ty.name;
      next_block = omega (arith, ap (λ l. l.1) same, ty.next_block);
      entries = stored_entries dt dt' fb size k old ts buf w ty.entries;
    }

-- `do_writefile` ends on a valid disk, and keeps it well typed: every entry of the table stays below
-- 2^32 and the number of the next block below 2^64, and the super block keeps the name of the file
-- system.
-- The file has its sectors in a rising chain, all memory is granted, `blocks` is at least 1, and the
-- sectors of the disk, doubled for each block but the first (for all the extensions that can be
-- needed), are fewer than 2^23; the size is below 2^64.
pub do_writefile-IsTyped :
    (e : Env) (dt : Dtree) (fb : ℕ) (old : List ℕ) (buf : Mem) (size k : ℕ)
    → Generous e
    → IsValid dt
    → IsTyped dt
    → IsChain dt.fat dt.sb.fat_num fb old
    → Meta.blocks buf 0 ≡ suc k
    → dt.sb.tot_sec_num * 2 ^ k < 8_388_608
    → k < 8_388_608
    → size < u64_mod
    → (dt' : Dtree) × (do_writefile e fb buf size dt ≡ some dt') × IsTyped dt'
do_writefile-IsTyped e dt fb old buf size k granted v ty c blocks room few small =
    let (ts, dt', run, w) =
      do_writefile-IsStored e dt fb old buf size k granted v c blocks room few small in
    (dt', run, stored-IsTyped e dt dt' fb size k old ts buf w run ty)

-- A chain and its sectors in a disk that is opened again.
module _ (d d' : Disk) (fb size : ℕ) (ts : List ℕ) (buf : Mem) (again : IsReopened d d')
    (c : IsChain d.tree.fat d.tree.sb.fat_num fb ts)
    (holds : Holds d.tree.area buf 0 size (fb ∷ ts)) where
  reopened-IsChain : IsChain d'.tree.fat d'.tree.sb.fat_num fb ts
  reopened-IsChain =
      IsChain-frame d.tree.fat d.tree.sb.fat_num d'.tree.fat d'.tree.sb.fat_num fb ts c
        (omega (arith, ap (λ s. s.fat_num) again.sb)) (λ a h. again.fat a)

  reopened-Holds : Holds d'.tree.area buf 0 size (fb ∷ ts)
  reopened-Holds =
      Holds-frame d.tree.area d'.tree.area buf 0 size (fb ∷ ts)
        (λ a o h p.
          again.area (a * 512 + o)
            (omega (arith, chain_lt d.tree.fat d.tree.sb.fat_num a fb ts c h)))
        holds

  reopened_read :
      (raw : Mem)
      → (out : Mem) × (do_readfile d'.tree fb raw ≡ some out)
        × ((a : ℕ) → a < size → a < 512 * suc (length ts) → out a ≡ buf a)
  reopened_read raw =
      let (out, got, r) = do_readfile-IsRead d'.tree fb ts raw again.valid reopened-IsChain in
      (
        out,
        got,
        λ a p q.
            Holds-agree d'.tree.area out buf 0 (512 * suc (length ts)) size (fb ∷ ts) r.holds
              reopened-Holds a (omega arith) (omega arith) (omega arith) (omega arith),
      )

module _ (o : Os) (ok : IsWriting o) (reads : (f : Image) → f.size ≤ 2 ^ 30 → IsReading o f)
    (granted : (place n : ℕ) → o.env.grants place n ≡ true) where
  -- What `do_writefile` has written to a file of a valid disk is there after the disk is saved and
  -- opened again: `save_disk` returns 0, `open_disk` opens the two files, and `do_readfile` reads every
  -- byte of the buffer from the disk that is opened, up to the size and to the end of the sectors. The
  -- fields of the tree fit their types, the names differ, the buffers have 1 GB at most, and the files
  -- that are written over are no longer than the buffers; files can be written, `write` takes the whole
  -- buffer, and `read` gives a byte or more before the end of a file and none at its end.
  -- The file has its sectors in a rising chain, all memory is granted, `blocks` is at least 1, and the
  -- sectors of the disk, doubled for each block but the first (for all the extensions that can be
  -- needed), are fewer than 2^23; the size is below 2^64.
  pub do_readfile-open_disk :
      (dt : Dtree) (fb : ℕ) (old : List ℕ) (buf : Mem) (size k : ℕ)
      → IsValid dt
      → IsTyped dt
      → IsChain dt.fat dt.sb.fat_num fb old
      → Meta.blocks buf 0 ≡ suc k
      → dt.sb.tot_sec_num * 2 ^ k < 8_388_608
      → k < 8_388_608
      → size < u64_mod
      → (dt' : Dtree) (in_buf gap raw : Mem) (ip_index : ℕ) (dt_name in_name : List ℕ)
        (files : Files)
      → do_writefile o.env fb buf size dt ≡ some dt'
      → str_eq dt_name in_name ≡ false
      → dt'.dt_size ≤ 2 ^ 30
      → dt'.in_size ≤ 2 ^ 30
      → (old_image (files dt_name)).size ≤ dt'.dt_size
      → (old_image (files in_name)).size ≤ dt'.in_size
      → (files' : Files) × (d' : Disk) × (out : Mem) × (save_disk o
            (some (record { tree = dt'; in_buf = in_buf; gap = gap }))
            dt_name
            in_name
            files
          ≡ done tt files')
        × (open_disk o ip_index dt_name in_name files' ≡ done (some d') files')
        × (do_readfile d'.tree fb raw ≡ some out)
        × ((a : ℕ) → a < size → a < 512 * suc k → out a ≡ buf a)
  do_readfile-open_disk dt fb old buf size k v ty c blocks room few small dt' in_buf gap raw
        ip_index dt_name in_name files run differ s1 s2 s3 s4 =
      let (ts, dt1, run1, w1) =
        do_writefile-IsStored o.env dt fb old buf size k (λ n. granted 0 n) v c blocks room few
          small in
      let same : dt1 ≡ dt' = some_inj (sym run1 ∙ run) in
      let w = subst (IsStored dt fb old size k buf ts) same w1 in
      let d : Disk = record { tree = dt'; in_buf = in_buf; gap = gap } in
      let (files', d', saved, opened, again) =
        open_disk-save_disk o ok reads granted d ip_index dt_name in_name files w.valid
          (stored-IsTyped o.env dt dt' fb size k old ts buf w run ty) differ s1 s2 s3 s4 in
      let (out, got, same_bytes) = reopened_read d d' fb size ts buf again w.chain w.holds raw in
      (files', d', out, saved, opened, got, λ a p q. same_bytes a p (omega (arith, w.count)))
