-- ===== src/Cfs/Disk/Pointers.antt =====
-- The pointers that `open_disk` of c_node/fs/cfs.c sets into a buffer find what a `dtree_t` keeps in
-- `dt_buf`.
use sbpfs.Common.{
  ℕ, ◌+◌, ◌-◌, ◌*◌, ◌/◌, ◌%◌, ◌^◌, ◌<◌, ◌≡◌, refl, sym, ap, ◌∙◌, arith, true, false, ltb,
  Bool-cases, inl, inr, codes,
}
use sbpfs.Common.Mem.{Mem, text_at, text_at-frame, put, u32_at, u64_at, u32_at-frame, u64_at-frame}
use sbpfs.Cfs.State.{Dtree, Sb, bytspersec}
use sbpfs.Cfs.Fat.Valid.{IsValid}
use sbpfs.Cfs.Disk.Layout.{sb_of, fat_of, pad, sb_list, byte_of, dt_bytes}

-- The fields of a tree fit their types, and its super block has the name of the file system.
pub record IsTyped (dt : Dtree) : Type 0 where
  pub name : dt.sb.fstype ≡ codes "cfs"
  pub next_block : dt.sb.max_block_num < 2 ^ 64
  pub entries : (i : ℕ) → dt.fat i < 2 ^ 32

abbrev sb_mem : Sb → Mem → Mem
sb_mem sb gap = put gap 0 (sb_list sb)

-- The super block in the first 40 bytes, by its fields.
module _ (gap : Mem) (tot fs num next : ℕ) where
  abbrev a_sb : Sb
  a_sb = record {
    fstype = codes "cfs";
    byts_per_sec = 512;
    tot_sec_num = tot;
    fat_sec_num = fs;
    fat_num = num;
    max_block_num = next;
  }

  name_found : text_at 16 (sb_mem a_sb gap) 0 ≡ codes "cfs"
  unfolding put text_at pad
  name_found = refl

  tot_at : tot < 2 ^ 32 → u32_at (sb_mem a_sb gap) 20 ≡ tot
  unfolding put u32_at pad
  tot_at h = omega arith

  fs_at : fs < 2 ^ 32 → u32_at (sb_mem a_sb gap) 24 ≡ fs
  unfolding put u32_at pad
  fs_at h = omega arith

  num_at : num < 2 ^ 32 → u32_at (sb_mem a_sb gap) 28 ≡ num
  unfolding put u32_at pad
  num_at h = omega arith

  next_at : next < 2 ^ 64 → u64_at (sb_mem a_sb gap) 32 ≡ next
  unfolding put u32_at u64_at pad
  next_at h = omega arith

module _ (dt : Dtree) (v : IsValid dt) (ty : IsTyped dt) (gap m : Mem)
    (same : (a : ℕ) → a < dt.dt_size → m a ≡ dt_bytes dt gap a) where
  abbrev the_sb : Sb
  the_sb = a_sb gap dt.sb.tot_sec_num dt.sb.fat_sec_num dt.sb.fat_num dt.sb.max_block_num

  the_sb-same : the_sb ≡ dt.sb
  the_sb-same = λ i. record {
    fstype = sym ty.name i;
    byts_per_sec = sym v.byts i;
    tot_sec_num = dt.sb.tot_sec_num;
    fat_sec_num = dt.sb.fat_sec_num;
    fat_num = dt.sb.fat_num;
    max_block_num = dt.sb.max_block_num;
  }

  first_sector : (a : ℕ) → a < 512 → m a ≡ sb_mem the_sb gap a
  unfolding dt_bytes
  first_sector a h =
      same a (omega (arith, v.whole, v.least))
      ∙ (dt_bytes-low ∙ ap (λ sb. put gap 0 (sb_list sb) a) (sym the_sb-same))
    where
      dt_bytes-low : dt_bytes dt gap a ≡ put gap 0 (sb_list dt.sb) a
      dt_bytes-low = ground (arith, h)

  pub sb_of-dt_bytes : sb_of m bytspersec ≡ dt.sb
  unfolding sb_of
  sb_of-dt_bytes =
      let t = dt.sb.tot_sec_num in
      let fs = dt.sb.fat_sec_num in
      let num = dt.sb.fat_num in
      let next = dt.sb.max_block_num in
      let first = sb_mem the_sb gap in
      let e0 =
        text_at-frame 16 first m 0 (λ a p q. first_sector a (omega arith))
        ∙ name_found gap t fs num next in
      let e1 =
        u32_at-frame first m 20 (λ a p q. first_sector a (omega arith))
        ∙ tot_at gap t fs num next (omega (arith, v.most)) in
      let e2 =
        u32_at-frame first m 24 (λ a p q. first_sector a (omega arith))
        ∙ fs_at gap t fs num next (omega (arith, v.most, v.fat_secs)) in
      let e3 =
        u32_at-frame first m 28 (λ a p q. first_sector a (omega arith))
        ∙ num_at gap t fs num next (omega (arith, v.most, v.data_secs)) in
      let e4 =
        u64_at-frame first m 32 (λ a p q. first_sector a (omega arith))
        ∙ next_at gap t fs num next ty.next_block in
      rw (e0, e1, e2, e3, e4) the_sb-same

  entry_byte :
      (i k : ℕ) → i < 128 * dt.sb.fat_sec_num → k < 4 → m (512 + 4 * i + k) ≡ byte_of (dt.fat i) k
  unfolding dt_bytes
  entry_byte i k h few =
      let at : (512 + 4 * i + k - 512) / 4 ≡ i = omega arith in
      let part : (512 + 4 * i + k - 512) % 4 ≡ k = omega arith in
      let behind : ltb (512 + 4 * i + k) 512 ≡ false = ground arith in
      let inside : ltb (512 + 4 * i + k) (512 + 512 * dt.sb.fat_sec_num) ≡ true =
        ground (arith, h, few) in
      same (512 + 4 * i + k) (omega (arith, v.whole, v.least, v.fat_secs, h))
      ∙ rw (dt_bytes, behind, inside, at, part) refl

  pub fat_of-dt_bytes : (i : ℕ) → fat_of m dt.sb.fat_sec_num i ≡ dt.fat i
  unfolding fat_of byte_of u32_at
  fat_of-dt_bytes i = elim (Bool-cases (ltb i (128 * dt.sb.fat_sec_num))) [
    | inl inside ↦
        let h : i < 128 * dt.sb.fat_sec_num = ground (arith, inside) in
        let b0 : m (512 + 4 * i) ≡ dt.fat i % 256 =
          ap m (omega arith) ∙ entry_byte i 0 h (omega arith) in
        let b1 : m (512 + 4 * i + 1) ≡ dt.fat i / 256 % 256 = entry_byte i 1 h (omega arith) in
        let b2 : m (512 + 4 * i + 2) ≡ dt.fat i / 65_536 % 256 = entry_byte i 2 h (omega arith) in
        let b3 : m (512 + 4 * i + 3) ≡ dt.fat i / 16_777_216 % 256 =
          entry_byte i 3 h (omega arith) in
        rw inside (omega (arith, b0, b1, b2, b3, ty.entries i))
    | inr outside ↦ rw outside (sym (v.spare i (ground (arith, outside, v.data_secs, v.fat_secs))))
  ]

  pub area-dt_bytes :
      (a : ℕ)
      → a < 512 * dt.sb.fat_num
      → m (bytspersec + (bytspersec * dt.sb.fat_sec_num % 2 ^ 32 + a)) ≡ dt.area a
  unfolding dt_bytes
  area-dt_bytes a h =
      let fs = dt.sb.fat_sec_num in
      let flat : 512 + (512 * fs % 2 ^ 32 + a) ≡ 512 + 512 * fs + a =
        omega (arith, v.most, v.fat_secs) in
      let behind : ltb (512 + 512 * fs + a) 512 ≡ false = ground arith in
      let outside : ltb (512 + 512 * fs + a) (512 + 512 * fs) ≡ false = ground arith in
      let at : 512 + 512 * fs + a - 512 - 512 * fs ≡ a = omega arith in
      ap m flat
      ∙ (same (512 + 512 * fs + a)
            (omega (arith, v.whole, v.least, v.most, v.fat_secs, v.data_secs, h))
          ∙ rw (dt_bytes, behind, outside, at) refl)
