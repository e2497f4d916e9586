-- ===== src/Cfs/Fat/Write.antt =====
-- What the loop of `do_writefile` in c_node/fs/cfs.c writes, sector by sector.
use native.Mathlib.Nat.{pow-suc}
use sbpfs.Common.{
  ℕ, zero, suc, ◌+◌, ◌-◌, ◌*◌, ◌%◌, ◌^◌, ◌≤◌, ◌<◌, ◌≡◌, ◌≢◌, refl, ap, ◌∙◌, arith, true, false,
  ◌==◌, ltb, some, List, [], ◌∷◌, length, if◌then◌else◌,
}
use sbpfs.Common.Mem.{Mem, u64_mod, update, update_ne, memcpy, memcpy_in, memcpy_out}
use sbpfs.Cfs.State.{Dtree, Env, freesec, endsec}
use sbpfs.Cfs.Fat.{alloc_fat, write_sector, write_loop}
use sbpfs.Cfs.Fat.Valid.{IsValid, Generous, IsAllocated, alloc_fat-IsAllocated}
use sbpfs.Cfs.Fat.Chain.{IsChain, has, Holds, Holds-mono, has-below, sector-eq}

-- `s` is the sector that is written first, `ts` the sectors that follow it, and `size` the bytes of
-- the buffer from its sector `i` on.
pub record IsWritten (dt : Dtree) (i s size : ℕ) (buf : Mem) (k : ℕ) (ts : List ℕ) (dt' : Dtree)
    : Type 0 where
  pub valid : IsValid dt'
  pub sectors : dt.sb.fat_num ≤ dt'.sb.fat_num
  pub count : length ts ≡ k
  pub chain : IsChain dt'.fat dt'.sb.fat_num s ts
  pub taken : (a : ℕ) → has a ts ≡ true → dt.fat a ≡ freesec
  pub others : (a : ℕ) → has a (s ∷ ts) ≡ false → dt'.fat a ≡ dt.fat a
  pub kept :
      (a o : ℕ)
      → a < dt.sb.fat_num
      → o < 512
      → has a (s ∷ ts) ≡ false
      → dt'.area (a * 512 + o) ≡ dt.area (a * 512 + o)
  pub holds : Holds dt'.area buf i size (s ∷ ts)

module _ (dt : Dtree) (i s size : ℕ) (buf : Mem) (v : IsValid dt) (hs : s < dt.sb.fat_num)
    (hi : i < 8_388_608) where
  abbrev sector_written : Dtree
  sector_written = write_sector i s size buf dt

  sector_fat : (a : ℕ) → sector_written.fat a ≡ (if a == s then endsec else dt.fat a)
  unfolding write_sector update
  sector_fat a = refl

  sector_area :
      sector_written.area
      ≡ memcpy dt.area (s * 512) buf (i * 512) (if ltb size 512 then size else 512)
  unfolding write_sector
  sector_area =
      rw (sector-eq dt s v.byts (omega (arith, v.most, v.data_secs)), sector-eq dt i v.byts hi)
        (ap (λ b. memcpy dt.area (s * 512) buf (i * 512) (if ltb size b then size else b)) v.byts)

  sector_in : (o : ℕ) → o < 512 → o < size → sector_written.area (s * 512 + o) ≡ buf (i * 512 + o)
  sector_in o h h' = rw sector_area (memcpy_in dt.area (s * 512) buf (i * 512) _ o (ground arith))

  sector_out :
      (a o : ℕ) → o < 512 → a ≢ s → sector_written.area (a * 512 + o) ≡ dt.area (a * 512 + o)
  sector_out a o h ne =
      rw sector_area
        (memcpy_out dt.area (s * 512) buf (i * 512) _ (a * 512 + o) (λ p. ground arith))

  sector-IsValid : IsValid sector_written
  unfolding write_sector
  sector-IsValid = record {
    byts = v.byts;
    whole = v.whole;
    least = v.least;
    most = v.most;
    fat_secs = v.fat_secs;
    data_secs = v.data_secs;
    spare = λ a h. sector_fat a ∙ ground (arith, v.spare a);
  }

  sector-IsWritten : IsWritten dt i s size buf 0 [] sector_written
  sector-IsWritten = record {
    valid = sector-IsValid;
    sectors = unfold write_sector in omega arith;
    count = refl;
    chain = (unfold write_sector in hs, ground (arith, sector_fat s));
    taken = λ a h. cc;
    others = λ a h. ground (arith, sector_fat a);
    kept = λ a o _ ho h. sector_out a o ho (ground arith);
    holds = (λ o p q. sector_in o p q, tt);
  }

-- One round, given the rounds that follow it.
module _ (dt : Dtree) (i s size : ℕ) (buf : Mem) (v : IsValid dt) (hs : s < dt.sb.fat_num)
    (hi : i < 8_388_608) (next : ℕ) (dt2 : Dtree)
    (got : IsAllocated (sector_written dt i s size buf v hs hi) s next dt2) where
  abbrev dt1 : Dtree
  dt1 = sector_written dt i s size buf v hs hi

  -- the state with the link from the sector to the next
  abbrev linked : Dtree
  linked = record dt2 { fat = update dt2.fat s next }

  same_sectors : dt1.sb.fat_num ≡ dt.sb.fat_num
  unfolding write_sector
  same_sectors = refl

  dt2_fat : (a : ℕ) → dt2.fat a ≡ (if a == s then endsec else dt.fat a)
  dt2_fat a = got.grows.fat a ∙ sector_fat dt i s size buf v hs hi a

  next_above : s < next
  next_above = ground (arith, got.from, got.free, dt2_fat next)

  linked_fat : (a : ℕ) → linked.fat a ≡ (if a == s then next else dt.fat a)
  unfolding update
  linked_fat a = ground (arith, dt2_fat a)

  linked-IsValid : IsValid linked
  linked-IsValid = record {
    byts = got.valid.byts;
    whole = got.valid.whole;
    least = got.valid.least;
    most = got.valid.most;
    fat_secs = got.valid.fat_secs;
    data_secs = got.valid.data_secs;
    spare = λ a h.
        update_ne dt2.fat s next a (λ e. absurd (omega (arith, got.grows.sectors, same_sectors)))
        ∙ got.valid.spare a h;
  }

  -- the data of the linked state, below the sectors of the first
  linked_area :
      (a o : ℕ) → a < dt.sb.fat_num → o < 512 → linked.area (a * 512 + o) ≡ dt1.area (a * 512 + o)
  linked_area a o h p = got.grows.area (a * 512 + o) (omega (arith, same_sectors))

  module _ (rest_size k : ℕ) (ts : List ℕ) (dt' : Dtree)
      (w : IsWritten linked (i + 1) next rest_size buf k ts dt') (le : size - 512 ≤ rest_size) where
    not_again : has s (next ∷ ts) ≡ false
    not_again = ground (arith, next_above, has-below dt'.fat dt'.sb.fat_num s next ts w.chain)

    step-IsWritten : IsWritten dt i s size buf (suc k) (next ∷ ts) dt'
    step-IsWritten = record {
      valid = w.valid;
      sectors = omega (arith, got.grows.sectors, same_sectors, w.sectors);
      count = ap suc w.count;
      chain = (
        omega (arith, got.grows.sectors, same_sectors, w.sectors),
        w.others s not_again ∙ linked_fat s ∙ ground arith,
        next_above,
        w.chain,
      );
      taken = λ a h. ground (arith, not_again, linked_fat a, dt2_fat a, got.free, w.taken a);
      others = λ a h. w.others a (ground arith) ∙ (linked_fat a ∙ ground arith);
      kept = λ a o ha ho h.
          w.kept a o (omega (arith, got.grows.sectors, same_sectors)) ho (ground arith)
          ∙ (linked_area a o ha ho ∙ sector_out dt i s size buf v hs hi a o ho (ground arith));
      holds = (
        λ o p q.
            w.kept s o (omega (arith, got.grows.sectors, same_sectors)) p not_again
            ∙ (linked_area s o hs p ∙ sector_in dt i s size buf v hs hi o p q),
        Holds-mono dt'.area buf (i + 1) (size - 512) rest_size (next ∷ ts) le w.holds,
      );
    }

-- The bytes that are left after a sector, in `u64_t`.
rest_le : (size b : ℕ) → b ≡ 512 → size < u64_mod → size - 512 ≤ (size + u64_mod - b) % u64_mod
rest_le size b byts h = rw byts (omega arith)

rest_lt : (size b : ℕ) → (size + u64_mod - b) % u64_mod < u64_mod
rest_lt size b = omega arith

pow_pos : (k : ℕ) → 1 ≤ 2 ^ k
pow_pos zero = omega arith
pow_pos (suc k) = rw pow-suc (omega (arith, pow_pos k))

room_now : (t k : ℕ) → t * 2 ^ suc k < 8_388_608 → 2 * t < 8_388_608
room_now t k h =
    let e : t * 2 ^ suc k ≡ 2 * (t * 2 ^ k) = rw pow-suc (omega arith) in
    let le : t * 1 ≤ t * 2 ^ k = grind (arith, pow_pos k) in omega arith

times_mono : (a b p : ℕ) → a ≤ b → a * p ≤ b * p
times_mono a b p h = grind arith

room_later : (t t' k : ℕ) → t * 2 ^ suc k < 8_388_608 → t' ≤ 2 * t → t' * 2 ^ k < 8_388_608
room_later t t' k h le =
    let e : t * 2 ^ suc k ≡ 2 * t * 2 ^ k = rw pow-suc (omega arith) in
    let mono = times_mono t' (2 * t) (2 ^ k) le in omega arith

write_loop-step :
    (e : Env) (k i s size : ℕ) (buf : Mem) (dt : Dtree) (next : ℕ) (dt2 : Dtree)
    → alloc_fat e s (write_sector i s size buf dt) ≡ some (next, dt2)
    → write_loop e (suc (suc k)) i s size buf dt
      ≡ write_loop e
          (suc k)
          (i + 1)
          next
          ((size + u64_mod - dt2.sb.byts_per_sec) % u64_mod)
          buf
          (record dt2 { fat = update dt2.fat s next })
unfolding write_loop
write_loop-step e k i s size buf dt next dt2 run = rw run

-- With memory for its extensions the loop ends, and it writes `k + 1` sectors.
pub write_loop-IsWritten :
    (e : Env) (k i s size : ℕ) (buf : Mem) (dt : Dtree)
    → Generous e
    → IsValid dt
    → s < dt.sb.fat_num
    → i + k < 8_388_608
    → dt.sb.tot_sec_num * 2 ^ k < 8_388_608
    → size < u64_mod
    → (ts : List ℕ) × (dt' : Dtree) × (write_loop e (suc k) i s size buf dt ≡ some dt')
      × IsWritten dt i s size buf k ts dt'
unfolding write_loop
write_loop-IsWritten e zero i s size buf dt granted v hs hi room small =
    let hi' : i < 8_388_608 = omega arith in
    ([], write_sector i s size buf dt, refl, sector-IsWritten dt i s size buf v hs hi')
write_loop-IsWritten e (suc k) i s size buf dt granted v hs hi room small =
    let hi' : i < 8_388_608 = omega arith in
    let dt1 : Dtree = write_sector i s size buf dt in
    let total : dt1.sb.tot_sec_num ≡ dt.sb.tot_sec_num = unfold write_sector in refl in
    let num : dt1.sb.fat_num ≡ dt.sb.fat_num = unfold write_sector in refl in
    let now = room_now dt.sb.tot_sec_num k room in
    let (next, dt2, run, got) =
      alloc_fat-IsAllocated e dt1 s (sector-IsValid dt i s size buf v hs hi') granted (omega arith)
        (omega arith) in
    let size' = (size + u64_mod - dt2.sb.byts_per_sec) % u64_mod in
    let dt3 : Dtree = linked dt i s size buf v hs hi' next dt2 got in
    let (ts, dt', run', w) =
      write_loop-IsWritten e k (i + 1) next size' buf dt3 granted
        (linked-IsValid dt i s size buf v hs hi' next dt2 got) got.below (omega arith)
        (room_later dt.sb.tot_sec_num dt2.sb.tot_sec_num k room (omega (arith, got.grows.total)))
        (rest_lt size dt2.sb.byts_per_sec) in
    (
      next ∷ ts,
      dt',
      write_loop-step e k i s size buf dt next dt2 run ∙ run',
      step-IsWritten dt i s size buf v hs hi' next dt2 got size' k ts dt' w
          (rest_le size dt2.sb.byts_per_sec got.valid.byts small),
    )
