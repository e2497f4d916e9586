-- ===== src/Cfs/Fat/RoundTrip.antt =====
-- `do_writefile` and `do_readfile` of c_node/fs/cfs.c: a file's bytes come back, and other files stay.
use sbpfs.Common.{
  ℕ, suc, ◌+◌, ◌*◌, ◌^◌, ◌≤◌, ◌<◌, ◌≡◌, ◌⊎◌, inl, inr, refl, sym, ap, ◌∙◌, arith, true, false, Bool,
  Bool-cases, some, List, ◌∷◌, length, if◌then◌else◌,
}
use sbpfs.Common.Mem.{Mem, u64_mod}
use sbpfs.Cfs.State.{Dtree, Env, freesec}
use sbpfs.Cfs.Meta
use sbpfs.Cfs.Fat.{with_dtree, write_loop, do_writefile, do_readfile}
use sbpfs.Cfs.Fat.Valid.{IsValid, Generous}
use sbpfs.Cfs.Fat.Chain.{
  IsChain, has, Holds, Holds-agree, Holds-frame, reset_fat-chain, chain_bound, chain_has_lt,
  chain_used, IsChain-frame, do_readfile-IsRead,
}
use sbpfs.Cfs.Fat.Write.{write_loop-IsWritten}

-- The state after a file at `fb` with the sectors `fb ∷ old` has been written with `fb ∷ ts`.
pub record IsStored (dt : Dtree) (fb : ℕ) (old : List ℕ) (size k : ℕ) (buf : Mem) (ts : List ℕ)
    (dt' : Dtree) : Type 0 where
  pub valid : IsValid dt'
  pub sectors : dt.sb.fat_num ≤ dt'.sb.fat_num
  pub count : length ts ≡ k
  pub chain : IsChain dt'.fat dt'.sb.fat_num fb ts
  pub taken : (a : ℕ) → has a ts ≡ true → (has a (fb ∷ old) ≡ true) ⊎ (dt.fat a ≡ freesec)
  pub freed : (a : ℕ) → has a old ≡ true → has a (fb ∷ ts) ≡ false → dt'.fat a ≡ freesec
  pub others : (a : ℕ) → has a (fb ∷ old) ≡ false → has a ts ≡ false → dt'.fat a ≡ dt.fat a
  pub kept :
      (a o : ℕ)
      → a < dt.sb.fat_num
      → o < 512
      → has a (fb ∷ ts) ≡ false
      → dt'.area (a * 512 + o) ≡ dt.area (a * 512 + o)
  pub holds : Holds dt'.area buf 0 size (fb ∷ ts)

spare_lem : (b : Bool) (x y : ℕ) → x ≡ (if b then freesec else y) → y ≡ freesec → x ≡ freesec
spare_lem true x y e h = e
spare_lem false x y e h = e ∙ h

taken_lem :
    (b : Bool) (x y : ℕ) → x ≡ (if b then freesec else y) → x ≡ freesec → (b ≡ true) ⊎ (y ≡ freesec)
taken_lem true x y e h = inl refl
taken_lem false x y e h = inr (sym e ∙ h)

has-cons : (a s : ℕ) (ts : List ℕ) → has a ts ≡ true → has a (s ∷ ts) ≡ true
has-cons a s ts h = ground arith

has-cons_not :
    (a s : ℕ) (old ts : List ℕ)
    → has a (s ∷ old) ≡ false
    → has a ts ≡ false
    → has a (s ∷ ts) ≡ false
has-cons_not a s old ts h n = ground arith

pub chain_lt :
    (fat : ℕ → ℕ) (num a s : ℕ) (ts : List ℕ)
    → IsChain fat num s ts
    → has a (s ∷ ts) ≡ true
    → a < num
chain_lt fat num a s ts c h =
    ground (arith, chain_bound fat num s ts c, chain_has_lt fat num a s ts c)

-- A sector of another file is no sector of the file that is written, neither before nor after.
untouched :
    {dt dt' : Dtree} {fb : ℕ} {old ts : List ℕ} {size k : ℕ} {buf : Mem} (fb2 : ℕ) (ts2 : List ℕ)
    → IsStored dt fb old size k buf ts dt'
    → IsChain dt.fat dt.sb.fat_num fb2 ts2
    → (a : ℕ) → has a (fb2 ∷ ts2) ≡ true
    → has a (fb ∷ old) ≡ false
    → has a ts ≡ false
untouched {dt} {ts} fb2 ts2 w c2 a h apart = elim (Bool-cases (has a ts)) [
  | inr out ↦ out
  | inl within ↦ elim (w.taken a within) [
    | inl own ↦ cc
    | inr free ↦ cc (chain_used dt.fat dt.sb.fat_num a fb2 ts2 c2 free)
  ]
]

module _ (e : Env) (dt : Dtree) (fb : ℕ) (old : List ℕ) (buf : Mem) (size k : ℕ)
    (granted : Generous e) (v : IsValid dt) (c : IsChain dt.fat dt.sb.fat_num fb old)
    (blocks : Meta.blocks buf 0 ≡ suc k) (room : dt.sb.tot_sec_num * 2 ^ k < 8_388_608)
    (few : k < 8_388_608) (small : size < u64_mod) where
  -- `do_writefile` ends on a valid disk, and keeps it valid. It keeps the file's first sector, takes as
  -- many sectors as `blocks` says, all free or the file's own, frees the others that the file had,
  -- and changes no other entry of the table and no other sector of the data.
  -- The file has its sectors in a rising chain, all memory is granted, `blocks` is at least 1, and the
  -- sectors of the disk, doubled for each block but the first (for all the extensions that can be
  -- needed), are fewer than 2^23; the size is below 2^64.
  pub do_writefile-IsStored :
      (ts : List ℕ) × (dt' : Dtree) × (do_writefile e fb buf size dt ≡ some dt')
      × IsStored dt fb old size k buf ts dt'
  unfolding do_writefile
  do_writefile-IsStored =
      let (fat0, run0, out0) = reset_fat-chain dt fb old v c in
      let dt0 : Dtree = record dt { fat = fat0 } in
      let v0 : IsValid dt0 = record {
        byts = v.byts;
        whole = v.whole;
        least = v.least;
        most = v.most;
        fat_secs = v.fat_secs;
        data_secs = v.data_secs;
        spare = λ a h. spare_lem (has a (fb ∷ old)) _ _ (out0 a) (v.spare a h);
      } in
      let lt = chain_bound dt.fat dt.sb.fat_num fb old c in
      let (ts, dt', run, w) =
        write_loop-IsWritten e k 0 fb size buf dt0 granted v0 (omega arith) (omega arith) room
          small in
      (
        ts,
        dt',
        ap (λ r. with_dtree r (write_loop e (Meta.blocks buf 0) 0 fb size buf)) run0
            ∙ (ap (λ n. write_loop e n 0 fb size buf dt0) blocks ∙ run),
        record {
          valid = w.valid;
          sectors = w.sectors;
          count = w.count;
          chain = w.chain;
          taken = λ a h. taken_lem (has a (fb ∷ old)) _ _ (out0 a) (w.taken a h);
          freed = λ a h n.
              w.others a n
              ∙ (out0 a ∙ ap (λ b. if b then freesec else dt.fat a) (has-cons a fb old h));
          others = λ a h n.
              w.others a (has-cons_not a fb old ts h n)
              ∙ (out0 a ∙ ap (λ b. if b then freesec else dt.fat a) h);
          kept = w.kept;
          holds = w.holds;
        },
      )

  -- What is written comes back: on a valid disk `do_writefile` ends, and then `do_readfile` ends and
  -- reads every byte of the buffer up to `size` and to the end of the sectors.
  -- The file has its sectors in a rising chain, all memory is granted, `blocks` is at least 1, and the
  -- sectors of the disk, doubled for each block but the first (for all the extensions that can be
  -- needed), are fewer than 2^23; the size is below 2^64.
  pub do_readfile-do_writefile :
      (raw : Mem)
      → (dt' : Dtree) × (out : Mem) × (do_writefile e fb buf size dt ≡ some dt')
        × (do_readfile dt' fb raw ≡ some out)
        × ((a : ℕ) → a < size → a < 512 * suc k → out a ≡ buf a)
  do_readfile-do_writefile raw =
      let (ts, dt', run, w) = do_writefile-IsStored in
      let (out, got, r) = do_readfile-IsRead dt' fb ts raw w.valid w.chain in
      (
        dt',
        out,
        run,
        got,
        λ a p q.
            Holds-agree dt'.area out buf 0 (512 * suc (length ts)) size (fb ∷ ts) r.holds w.holds a
              (omega arith) (omega (arith, w.count)) (omega arith) (omega (arith, w.count)),
      )

  -- A file that shares no sector with the one that is written keeps its chain, and `do_readfile`
  -- reads the same bytes of it as before; `do_writefile` ends on a valid disk. Both files have their
  -- sectors in rising chains, all memory is granted, `blocks` is at least 1, and the sectors of the
  -- disk, doubled for each block but the first (for all the extensions that can be needed), are fewer
  -- than 2^23; the size is below 2^64.
  pub do_writefile-other :
      (fb2 : ℕ) (ts2 : List ℕ) (raw : Mem)
      → IsChain dt.fat dt.sb.fat_num fb2 ts2
      → ((a : ℕ) → has a (fb2 ∷ ts2) ≡ true → has a (fb ∷ old) ≡ false)
      → (dt' : Dtree) × (out : Mem) × (out' : Mem) × (do_writefile e fb buf size dt ≡ some dt')
        × IsChain dt'.fat dt'.sb.fat_num fb2 ts2
        × (do_readfile dt fb2 raw ≡ some out)
        × (do_readfile dt' fb2 raw ≡ some out')
        × ((a : ℕ) → a < 512 * suc (length ts2) → out' a ≡ out a)
  do_writefile-other fb2 ts2 raw c2 apart =
      let (ts, dt', run, w) = do_writefile-IsStored in
      let spared : (a : ℕ) → has a (fb2 ∷ ts2) ≡ true → has a ts ≡ false =
        λ a h. untouched fb2 ts2 w c2 a h (apart a h) in
      let c2' : IsChain dt'.fat dt'.sb.fat_num fb2 ts2 =
        IsChain-frame dt.fat dt.sb.fat_num dt'.fat dt'.sb.fat_num fb2 ts2 c2 w.sectors
          (λ a h. w.others a (apart a h) (spared a h)) in
      let (out, got, r) = do_readfile-IsRead dt fb2 ts2 raw v c2 in
      let (out', got', r') = do_readfile-IsRead dt' fb2 ts2 raw w.valid c2' in
      let size2 = 512 * suc (length ts2) in
      let before : Holds dt'.area out 0 size2 (fb2 ∷ ts2) =
        Holds-frame dt.area dt'.area out 0 size2 (fb2 ∷ ts2)
          (λ a o h p.
            w.kept a o (chain_lt dt.fat dt.sb.fat_num a fb2 ts2 c2 h) p
              (has-cons_not a fb old ts (apart a h) (spared a h)))
          r.holds in
      (
        dt',
        out,
        out',
        run,
        c2',
        got,
        got',
        λ a p.
            Holds-agree dt'.area out' out 0 size2 size2 (fb2 ∷ ts2) r'.holds before a (omega arith)
              (omega arith) (omega arith) (omega arith),
      )
