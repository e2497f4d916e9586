-- ===== src/Cfs/Fat/Chain.antt =====
-- Chains of sectors: what `reset_fat` of c_node/fs/cfs.c frees and what `do_readfile` reads.
use mathlib.Core.Path.{subst}
use sbpfs.Common.{
  ℕ, zero, suc, ◌+◌, ◌-◌, ◌*◌, ◌%◌, ◌≤◌, ◌<◌, ◌≡◌, ◌≢◌, refl, sym, ap, ◌∙◌, ltb, arith, Bool, true,
  false, ◌==◌, ◌||◌, Bool-cases, inl, inr, some, ==→eq, List, [], ◌∷◌, length, if◌then◌else◌,
  ne→==-false,
}
use sbpfs.Common.Mem.{Mem, u32_mod, update, memcpy, memcpy_in, memcpy_out}
use sbpfs.Cfs.State.{Dtree, sector, freesec, endsec}
use sbpfs.Cfs.Fat.{reset_loop, with_fat, reset_fat, read_loop, do_readfile, rounds}
use sbpfs.Cfs.Fat.Valid.{IsValid}

-- The sectors `s ∷ ts` of a file, each behind the one before it. `do_writefile` looks for the next
-- sector behind the last, so the chains that it writes rise.
abbrev pub IsChain : (ℕ → ℕ) → ℕ → ℕ → List ℕ → Type 0
IsChain fat num s [] = (s < num) × (fat s ≡ endsec)
IsChain fat num s (t ∷ ts) = (s < num) × (fat s ≡ t) × (s < t) × IsChain fat num t ts

abbrev pub has : ℕ → List ℕ → Bool
has a [] = false
has a (x ∷ xs) = (a == x) || has a xs

-- The buffer holds the sectors' bytes from its sector `i` on, up to `size` bytes.
abbrev pub Holds : Mem → Mem → ℕ → ℕ → List ℕ → Type 0
Holds area buf i size [] = Unit
Holds area buf i size (s ∷ ss) =
    ((o : ℕ) → o < 512 → o < size → area (s * 512 + o) ≡ buf (i * 512 + o))
    × Holds area buf (i + 1) (size - 512) ss

module _ (fat : ℕ → ℕ) (num : ℕ) where
  -- the head of a chain is below its other sectors
  pub has-below : (a s : ℕ) (ts : List ℕ) → IsChain fat num s ts → a ≤ s → has a ts ≡ false
  has-below a s [] c h = refl
  has-below a s (t ∷ ts) (p, e, lt, c) h = ground (arith, has-below a t ts c)

  pub chain_bound : (s : ℕ) (ts : List ℕ) → IsChain fat num s ts → s + length ts < num
  chain_bound s [] c = omega arith
  chain_bound s (t ∷ ts) (p, e, lt, c) = omega (arith, chain_bound t ts c)

  pub chain_has_lt : (a s : ℕ) (ts : List ℕ) → IsChain fat num s ts → has a ts ≡ true → a < num
  chain_has_lt a s [] c h = cc
  chain_has_lt a s (t ∷ ts) (p, e, lt, c) h = elim (Bool-cases (a == t)) [
    | inl same ↦ omega (arith, ==→eq a t same, chain_bound t ts c)
    | inr other ↦ chain_has_lt a t ts c (ground arith)
  ]

  -- no sector of a chain is free
  pub chain_used :
      (a s : ℕ) (ts : List ℕ) → IsChain fat num s ts → fat a ≡ freesec → has a (s ∷ ts) ≡ false
  chain_used a s [] c h = ground arith
  chain_used a s (t ∷ ts) (p, e, lt, c) h = ground (arith, chain_used a t ts c)

  -- a chain survives a change of the table that spares it
  pub IsChain-frame :
      (fat' : ℕ → ℕ) (num' s : ℕ) (ts : List ℕ)
      → IsChain fat num s ts
      → num ≤ num'
      → ((a : ℕ) → has a (s ∷ ts) ≡ true → fat' a ≡ fat a)
      → IsChain fat' num' s ts
  IsChain-frame fat' num' s [] (p, e) le same = (omega arith, ground (arith, same s))
  IsChain-frame fat' num' s (t ∷ ts) (p, e, lt, c) le same = (
    omega arith,
    ground (arith, same s),
    lt,
    IsChain-frame fat' num' t ts c le (λ a h. same a (ground arith)),
  )

reset_loop-step :
    (k s : ℕ) (fat : ℕ → ℕ)
    → s ≢ endsec
    → reset_loop (suc k) s fat ≡ reset_loop k (fat s) (update fat s freesec)
unfolding reset_loop
reset_loop-step k s fat h = rw (ne→==-false s endsec h)

reset_loop-end : (k s : ℕ) (fat : ℕ → ℕ) → s ≡ endsec → reset_loop (suc k) s fat ≡ some fat
unfolding reset_loop
reset_loop-end k s fat h = ground arith

reset_loop-chain :
    (fat : ℕ → ℕ) (num k s : ℕ) (ts : List ℕ)
    → IsChain fat num s ts
    → num < endsec
    → length ts + 1 < k
    → (fat' : ℕ → ℕ) × (reset_loop k s fat ≡ some fat')
      × ((a : ℕ) → fat' a ≡ (if has a (s ∷ ts) then freesec else fat a))
reset_loop-chain fat num zero s ts c small fuel = absurd (omega arith)
reset_loop-chain fat num (suc zero) s ts c small fuel = absurd (omega arith)
reset_loop-chain fat num (suc (suc k)) s [] c small fuel = (
  update fat s freesec,
  reset_loop-step (suc k) s fat (omega arith) ∙ reset_loop-end k (fat s) (update fat s freesec) c.1,
  λ a. unfold update in ground arith,
)
reset_loop-chain fat num (suc (suc k)) s (t ∷ ts) (p, e, lt, c) small fuel =
    let rest : IsChain (update fat s freesec) num t ts =
      IsChain-frame fat num (update fat s freesec) num t ts c (omega arith)
        (λ a h. unfold update in ground (arith, has-below fat num s t ts c (omega arith))) in
    let (fat', run, out) =
      reset_loop-chain (update fat s freesec) num (suc k) t ts rest small (omega arith) in
    (
      fat',
      reset_loop-step (suc k) s fat (omega arith)
          ∙ (ap (λ n. reset_loop (suc k) n (update fat s freesec)) e ∙ run),
      λ a. out a ∙ unfold update in ground arith,
    )

-- `reset_fat` ends on the chain of a file, and frees exactly the sectors of the chain.
pub reset_fat-chain :
    (dt : Dtree) (fb : ℕ) (ts : List ℕ)
    → IsValid dt
    → IsChain dt.fat dt.sb.fat_num fb ts
    → (fat' : ℕ → ℕ) × (reset_fat fb dt ≡ some (record dt { fat = fat' }))
      × ((a : ℕ) → fat' a ≡ (if has a (fb ∷ ts) then freesec else dt.fat a))
unfolding reset_fat
reset_fat-chain dt fb ts v c =
    let (fat', run, out) =
      reset_loop-chain dt.fat dt.sb.fat_num (rounds dt) fb ts c (omega (arith, v.most, v.data_secs))
        (omega (arith, chain_bound dt.fat dt.sb.fat_num fb ts c)) in
    (fat', ap (with_fat dt) run, out)

-- What reading the sectors `s ∷ ts` to sector `i` of a buffer leaves in it.
pub record IsRead (dt : Dtree) (buf : Mem) (i s : ℕ) (ts : List ℕ) (out : Mem) : Type 0 where
  pub holds : Holds dt.area out i (512 * suc (length ts)) (s ∷ ts)
  pub before : (a : ℕ) → a < 512 * i → out a ≡ buf a

pub sector-eq :
    (dt : Dtree) (n : ℕ) → dt.sb.byts_per_sec ≡ 512 → n < 8_388_608 → sector dt n ≡ n * 512
unfolding sector
sector-eq dt n byts h = ap (λ b. n * b % u32_mod) byts ∙ omega arith

abbrev pub read_sector : Dtree → Mem → ℕ → ℕ → Mem
read_sector dt buf i s = memcpy buf (i * 512) dt.area (s * 512) 512

read_loop-step :
    (k s i : ℕ) (buf : Mem) (dt : Dtree)
    → dt.sb.byts_per_sec ≡ 512
    → s < 8_388_608
    → i < 8_388_608
    → read_loop (suc k) s i buf dt ≡ read_loop k (dt.fat s) (i + 1) (read_sector dt buf i s) dt
unfolding read_loop
read_loop-step k s i buf dt byts hs hi =
    rw (ne→==-false s endsec (omega arith), sector-eq dt i byts hi, sector-eq dt s byts hs)
      (ap (λ b. read_loop k (dt.fat s) (i + 1) (memcpy buf (i * 512) dt.area (s * 512) b) dt) byts)

read_loop-end :
    (k s i : ℕ) (buf : Mem) (dt : Dtree) → s ≡ endsec → read_loop (suc k) s i buf dt ≡ some buf
unfolding read_loop
read_loop-end k s i buf dt h = ground arith

read_loop-IsRead :
    (k s i : ℕ) (ts : List ℕ) (buf : Mem) (dt : Dtree)
    → IsValid dt
    → IsChain dt.fat dt.sb.fat_num s ts
    → i ≤ s
    → length ts + 1 < k
    → (out : Mem) × (read_loop k s i buf dt ≡ some out) × IsRead dt buf i s ts out
read_loop-IsRead zero s i ts buf dt v c le fuel = absurd (omega arith)
read_loop-IsRead (suc zero) s i ts buf dt v c le fuel = absurd (omega arith)
read_loop-IsRead (suc (suc k)) s i [] buf dt v c le fuel = (
  read_sector dt buf i s,
  read_loop-step (suc k) s i buf dt v.byts (omega (arith, v.most, v.data_secs))
        (omega (arith, v.most, v.data_secs))
      ∙ read_loop-end k (dt.fat s) (i + 1) (read_sector dt buf i s) dt c.1,
  record {
    holds = (λ o h _. sym (memcpy_in buf (i * 512) dt.area (s * 512) 512 o h), tt);
    before = λ a h. memcpy_out buf (i * 512) dt.area (s * 512) 512 a (λ p. absurd (omega arith));
  },
)
read_loop-IsRead (suc (suc k)) s i (t ∷ ts) buf dt v (p, e, lt, c) le fuel =
    let buf1 : Mem = read_sector dt buf i s in
    let (out, run, r) =
      read_loop-IsRead (suc k) t (i + 1) ts buf1 dt v c (omega arith) (omega arith) in
    (
      out,
      read_loop-step (suc k) s i buf dt v.byts (omega (arith, v.most, v.data_secs))
            (omega (arith, v.most, v.data_secs))
          ∙ (ap (λ n. read_loop (suc k) n (i + 1) buf1 dt) e ∙ run),
      record {
        holds = (
          λ o h _. sym (
              r.before (i * 512 + o) (omega arith)
              ∙ memcpy_in buf (i * 512) dt.area (s * 512) 512 o h),
          subst (λ n. Holds dt.area out (i + 1) n (t ∷ ts)) (omega arith) r.holds,
        );
        before = λ a h.
            r.before a (omega arith)
            ∙ memcpy_out buf (i * 512) dt.area (s * 512) 512 a (λ p. absurd (omega arith));
      },
    )

-- `do_readfile` ends on the chain of a file, and the buffer then holds the chain's sectors in order.
pub do_readfile-IsRead :
    (dt : Dtree) (fb : ℕ) (ts : List ℕ) (buf : Mem)
    → IsValid dt
    → IsChain dt.fat dt.sb.fat_num fb ts
    → (out : Mem) × (do_readfile dt fb buf ≡ some out) × IsRead dt buf 0 fb ts out
unfolding do_readfile
do_readfile-IsRead dt fb ts buf v c =
    read_loop-IsRead (rounds dt) fb 0 ts buf dt v c (omega arith)
      (omega (arith, chain_bound dt.fat dt.sb.fat_num fb ts c))

-- Two buffers that hold the same sectors hold the same bytes.
pub Holds-agree :
    (area b1 b2 : Mem) (i n1 n2 : ℕ) (ss : List ℕ)
    → Holds area b1 i n1 ss
    → Holds area b2 i n2 ss
    → (a : ℕ) → i * 512 ≤ a
    → a < i * 512 + n1
    → a < i * 512 + n2
    → a < (i + length ss) * 512
    → b1 a ≡ b2 a
Holds-agree area b1 b2 i n1 n2 [] h1 h2 a p q r t = absurd (omega arith)
Holds-agree area b1 b2 i n1 n2 (s ∷ ss) (f1, h1) (f2, h2) a p q r t =
    elim (Bool-cases (ltb a (i * 512 + 512))) [
      | inl here ↦
          let o = a - i * 512 in
          let at : i * 512 + o ≡ a = omega arith in
          let lt : a < i * 512 + 512 = ground arith in
          ap b1 (sym at)
          ∙ (sym (f1 o (omega arith) (omega arith)) ∙ (f2 o (omega arith) (omega arith) ∙ ap b2 at))
      | inr there ↦
          let ge : i * 512 + 512 ≤ a = ground arith in
          Holds-agree area b1 b2 (i + 1) (n1 - 512) (n2 - 512) ss h1 h2 a (omega arith)
            (omega arith) (omega arith) (omega arith)
    ]

pub Holds-mono :
    (area buf : Mem) (i m n : ℕ) (ss : List ℕ)
    → m ≤ n
    → Holds area buf i n ss
    → Holds area buf i m ss
Holds-mono area buf i m n [] le h = tt
Holds-mono area buf i m n (s ∷ ss) le (f, h) = (
  λ o p q. f o p (omega arith),
  Holds-mono area buf (i + 1) (m - 512) (n - 512) ss (omega arith) h,
)

-- Sectors hold the same after a change of the data that spares them.
pub Holds-frame :
    (area area' buf : Mem) (i n : ℕ) (ss : List ℕ)
    → ((s o : ℕ) → has s ss ≡ true → o < 512 → area' (s * 512 + o) ≡ area (s * 512 + o))
    → Holds area buf i n ss
    → Holds area' buf i n ss
Holds-frame area area' buf i n [] same h = tt
Holds-frame area area' buf i n (s ∷ ss) same (f, h) = (
  λ o p q. same s o (ground arith) p ∙ f o p q,
  Holds-frame area area' buf (i + 1) (n - 512) ss (λ t o m p. same t o (ground arith) p) h,
)
