-- ===== src/Cfs/Fat/Valid.antt =====
-- The geometry of the file system in c_node/fs/cfs.c, how `extend` keeps it, and what a free sector
-- costs.
use sbpfs.Common.{
  ℕ, suc, ◌+◌, ◌-◌, ◌*◌, ◌/◌, ◌%◌, ◌≤◌, ◌<◌, ◌≡◌, ◌≢◌, refl, arith, true, false, ◌==◌, Bool-cases,
  inl, inr, some, ap, ◌∙◌,
}
use sbpfs.Common.Mem.{memcpy, u32_mod}
use sbpfs.Cfs.State.{Dtree, Env, freesec, no_fat}
use sbpfs.Cfs.Fat.{
  next_free_fat, table_size, table_sectors, data_sectors, extended, extend, find_free, alloc_fat,
}
use sbpfs.Cfs.Fat.Scan.{next_free_fat-first, next_free_fat-found}

-- A disk of whole sectors: one for the super block, then the table, then the data. The entries
-- behind the last data sector are free.
pub record IsValid (dt : Dtree) : Type 0 where
  pub byts : dt.sb.byts_per_sec ≡ 512
  pub whole : dt.dt_size ≡ 512 * dt.sb.tot_sec_num
  pub least : 3 ≤ dt.sb.tot_sec_num
  pub most : dt.sb.tot_sec_num < 8_388_608
  pub fat_secs : dt.sb.fat_sec_num ≡ (4 * dt.sb.tot_sec_num + 511) / 512
  pub data_secs : dt.sb.fat_num ≡ dt.sb.tot_sec_num - 1 - dt.sb.fat_sec_num
  pub spare : (i : ℕ) → dt.sb.fat_num ≤ i → dt.fat i ≡ freesec

-- `dt'` holds at least the sectors of `dt`, with the same table and the same data.
pub record Grows (dt dt' : Dtree) : Type 0 where
  pub sectors : dt.sb.fat_num ≤ dt'.sb.fat_num
  pub total : dt'.sb.tot_sec_num ≤ 2 * dt.sb.tot_sec_num
  pub fat : (i : ℕ) → dt'.fat i ≡ dt.fat i
  pub area : (a : ℕ) → a < 512 * dt.sb.fat_num → dt'.area a ≡ dt.area a

abbrev pub Generous : Env → Type 0
Generous e = (n : ℕ) → e.grants 0 n ≡ true

-- The numbers of an extension to 2 * t sectors.
module _ (n b t : ℕ) (byts : b ≡ 512) (double : n ≡ 1024 * t) (small : 2 * t < 8_388_608)
    (least : 3 ≤ t) where
  total_double : n / b % u32_mod ≡ 2 * t
  total_double = rw byts (omega arith)

  table_size_double : table_size n b ≡ 8 * t
  unfolding table_size
  table_size_double = rw byts (omega arith)

  table_sectors_double : table_sectors (table_size n b) b ≡ (8 * t + 511) / 512
  unfolding table_sectors
  table_sectors_double = rw (table_size_double, byts) (omega arith)

  data_sectors_double : data_sectors n (table_size n b) b ≡ 2 * t - 1 - (8 * t + 511) / 512
  unfolding data_sectors
  data_sectors_double = rw (table_size_double, byts) (omega arith)

module _ (e : Env) (dt : Dtree) (v : IsValid dt) (n : ℕ) (double : n ≡ 1024 * dt.sb.tot_sec_num)
    (fits : 2 * dt.sb.tot_sec_num < 8_388_608) where
  abbrev bigger : Dtree
  bigger = extended e n dt

  bigger_total : bigger.sb.tot_sec_num ≡ 2 * dt.sb.tot_sec_num
  unfolding extended
  bigger_total = total_double n _ _ v.byts double fits v.least

  bigger_table : bigger.sb.fat_sec_num ≡ (8 * dt.sb.tot_sec_num + 511) / 512
  unfolding extended
  bigger_table = table_sectors_double n _ _ v.byts double fits v.least

  bigger_data : bigger.sb.fat_num ≡ 2 * dt.sb.tot_sec_num - 1 - (8 * dt.sb.tot_sec_num + 511) / 512
  unfolding extended
  bigger_data = data_sectors_double n _ _ v.byts double fits v.least

  bigger_bytes : dt.sb.fat_sec_num * dt.sb.byts_per_sec ≡ 512 * dt.sb.fat_sec_num
  bigger_bytes = ap (λ b. dt.sb.fat_sec_num * b) v.byts ∙ omega arith

  bigger_fat : (i : ℕ) → bigger.fat i ≡ dt.fat i
  unfolding extended
  bigger_fat i = ground (arith, bigger_bytes, v.fat_secs, v.data_secs, v.spare i)

  bigger_area : (a : ℕ) → a < 512 * dt.sb.fat_num → bigger.area a ≡ dt.area a
  unfolding extended memcpy
  bigger_area a h = ground (arith, bigger_bytes, v.byts, v.whole, v.data_secs)

  bigger-more : dt.sb.fat_num < bigger.sb.fat_num
  bigger-more = omega (arith, bigger_data, v.data_secs, v.fat_secs, v.least)

  bigger-Grows : Grows dt bigger
  bigger-Grows = record {
    sectors = omega (arith, bigger-more);
    total = omega (arith, bigger_total);
    fat = bigger_fat;
    area = bigger_area;
  }

  bigger_size : bigger.dt_size ≡ n
  unfolding extended
  bigger_size = refl

  bigger-IsValid : IsValid bigger
  bigger-IsValid = record {
    byts = unfold extended in v.byts;
    whole = omega (arith, bigger_size, bigger_total);
    least = omega (arith, bigger_total, v.least);
    most = omega (arith, bigger_total);
    fat_secs = omega (arith, bigger_table, bigger_total);
    data_secs = omega (arith, bigger_table, bigger_total, bigger_data);
    spare = λ i h. bigger_fat i ∙ v.spare i (omega (arith, bigger-more));
  }

  extend-bigger : e.grants 0 n ≡ true → (extend e n dt).1 ≡ bigger
  unfolding extend
  extend-bigger ok = ground (arith, v.whole, v.least)

-- What `alloc_fat` returns: a free sector at or behind `base`.
pub record IsAllocated (dt : Dtree) (base next : ℕ) (dt' : Dtree) : Type 0 where
  pub valid : IsValid dt'
  pub grows : Grows dt dt'
  pub from : base ≤ next
  pub below : next < dt'.sb.fat_num
  pub free : dt'.fat next ≡ freesec

Grows-refl : (dt : Dtree) → Grows dt dt
Grows-refl dt = record {
  sectors = omega arith;
  total = omega arith;
  fat = λ i. refl;
  area = λ a h. refl;
}

found-IsAllocated :
    (dt dt' : Dtree) (base : ℕ)
    → IsValid dt'
    → Grows dt dt'
    → base ≤ dt'.sb.fat_num
    → next_free_fat base dt'.fat dt'.sb.fat_num ≢ no_fat
    → IsAllocated dt base (next_free_fat base dt'.fat dt'.sb.fat_num) dt'
found-IsAllocated dt dt' base v g le ne =
    elim (next_free_fat-first base dt'.fat dt'.sb.fat_num (omega (arith, v.most, v.data_secs)) le) [
      | inl first ↦ record {
        valid = v;
        grows = g;
        from = first.from;
        below = first.below;
        free = first.free;
      }
      | inr (none_left, _) ↦ absurd (ne none_left)
    ]

find_free_now :
    (e : Env) (k base : ℕ) (dt : Dtree)
    → (next_free_fat base dt.fat dt.sb.fat_num == no_fat) ≡ false
    → find_free e (suc k) base dt ≡ some (next_free_fat base dt.fat dt.sb.fat_num, dt)
unfolding find_free
find_free_now e k base dt miss = rw miss

find_free_later :
    (e : Env) (k base : ℕ) (dt : Dtree)
    → (next_free_fat base dt.fat dt.sb.fat_num == no_fat) ≡ true
    → find_free e (suc k) base dt ≡ find_free e k base (extend e (dt.dt_size * 2 % u32_mod) dt).1
unfolding find_free
find_free_later e k base dt hit = rw hit

-- With memory for one extension, a free sector is always found: the loop runs at most twice.
pub alloc_fat-IsAllocated :
    (e : Env) (dt : Dtree) (base : ℕ)
    → IsValid dt
    → Generous e
    → 2 * dt.sb.tot_sec_num < 8_388_608
    → base ≤ dt.sb.fat_num
    → (next : ℕ) × (dt' : Dtree) × (alloc_fat e base dt ≡ some (next, dt'))
      × IsAllocated dt base next dt'
unfolding alloc_fat
alloc_fat-IsAllocated e dt base v granted fits le =
    elim (Bool-cases (next_free_fat base dt.fat dt.sb.fat_num == no_fat)) [
      | inr miss ↦ (
        next_free_fat base dt.fat dt.sb.fat_num,
        dt,
        find_free_now e 33 base dt miss,
        found-IsAllocated dt dt base v (Grows-refl dt) le (ground arith),
      )
      | inl hit ↦
          let n = dt.dt_size * 2 % u32_mod in
          let double : n ≡ 1024 * dt.sb.tot_sec_num = omega (arith, v.whole) in
          let dt' : Dtree = extended e n dt in
          let v' = bigger-IsValid e dt v n double fits in
          let g = bigger-Grows e dt v n double fits in
          let more = bigger-more e dt v n double fits in
          let ne : next_free_fat base dt'.fat dt'.sb.fat_num ≢ no_fat =
            next_free_fat-found base dt'.fat dt'.sb.fat_num dt.sb.fat_num
              (omega (arith, v'.most, v'.data_secs)) le more
              (g.fat dt.sb.fat_num ∙ v.spare dt.sb.fat_num (omega arith)) in
          (
            next_free_fat base dt'.fat dt'.sb.fat_num,
            dt',
            find_free_later e 33 base dt hit
                ∙ (ap (find_free e 33 base) (extend-bigger e dt v n double fits (granted n))
                    ∙ find_free_now e 32 base dt' (ground arith)),
            found-IsAllocated dt dt' base v' g (omega (arith, g.sectors)) ne,
          )
    ]
