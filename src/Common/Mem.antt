-- ===== src/Common/Mem.antt =====
-- Byte buffers, as the memory behind a C pointer: a function from the offset to what stands there.
-- `memcpy`, the assignment of an array element, and the little-endian integers of a struct.
use sbpfs.Common.Tests.{ltb, leb, ◌==◌, if◌then◌else◌}
use sbpfs.Common.Lists.{get_elem?}
use Prim.Native.Nat.{ℕ, zero, suc, ◌+◌, ◌-◌, ◌*◌, ◌/◌, ◌%◌, ◌^◌, ◌≤◌, ◌<◌}
use mathlib.Core.Path.{◌≡◌, refl}
use mathlib.Core.Logic.{◌≢◌}
use mathlib.Core.Bool.{◌&&◌}
use mathlib.Core.List.{List, [], ◌∷◌}
use mathlib.Core.Option.{none, some}
use native.Mathlib.Omega.{arith}

abbrev pub u8_mod : ℕ
u8_mod = 2 ^ 8

abbrev pub u32_mod : ℕ
u32_mod = 2 ^ 32

abbrev pub u64_mod : ℕ
u64_mod = 2 ^ 64

abbrev pub Mem : Type 0
Mem = ℕ → ℕ

-- `a[i] = v`
unfoldable pub update : Mem → ℕ → ℕ → Mem
update m i v a = if a == i then v else m a

-- `memcpy(dst + d, src + s, n)` for buffers that do not overlap
unfoldable pub memcpy : Mem → ℕ → Mem → ℕ → ℕ → Mem
memcpy dst d src s n a = if leb d a && ltb a (d + n) then src (s + (a - d)) else dst a

-- the bytes `bs`, written from offset `d`
unfoldable pub put : Mem → ℕ → List ℕ → Mem
put dst d bs a =
    if leb d a then elim (get_elem? bs (a - d)) [ none ↦ dst a | some b ↦ b ] else dst a

-- A `u8_t`, `u32_t` or `u64_t` at an offset.
unfoldable pub u8_at : Mem → ℕ → ℕ
u8_at m o = m o

unfoldable pub u32_at : Mem → ℕ → ℕ
u32_at m o = m o + 256 * m (o + 1) + 65_536 * m (o + 2) + 16_777_216 * m (o + 3)

unfoldable pub u64_at : Mem → ℕ → ℕ
unfolding u32_at
u64_at m o = u32_at m o + 4_294_967_296 * u32_at m (o + 4)

-- the text at an offset, up to its first 0, of `n` bytes at most
unfoldable pub text_at : ℕ → Mem → ℕ → List ℕ
text_at zero m a = []
text_at (suc n) m a = let rest = text_at n m (a + 1) in if m a == 0 then [] else m a ∷ rest

abbrev pub u8_bytes : ℕ → List ℕ
u8_bytes v = (v % 256) ∷ []

abbrev pub u32_bytes : ℕ → List ℕ
u32_bytes v = (v % 256) ∷ (v / 256 % 256) ∷ (v / 65_536 % 256) ∷ (v / 16_777_216 % 256) ∷ []

unfoldable pub set_u8 : Mem → ℕ → ℕ → Mem
unfolding put
set_u8 m o v = put m o (u8_bytes v)

unfoldable pub set_u32 : Mem → ℕ → ℕ → Mem
unfolding put
set_u32 m o v = put m o (u32_bytes v)

unfoldable pub set_u64 : Mem → ℕ → ℕ → Mem
unfolding set_u32
set_u64 m o v = set_u32 (set_u32 m o (v % u32_mod)) (o + 4) (v / u32_mod)

pub update_self : (m : Mem) (i v : ℕ) → update m i v i ≡ v
unfolding update
update_self m i v = ground arith

pub update_ne : (m : Mem) (i v a : ℕ) → a ≢ i → update m i v a ≡ m a
unfolding update
update_ne m i v a h = ground arith

pub memcpy_in :
    (dst : Mem) (d : ℕ) (src : Mem) (s n k : ℕ) → k < n → memcpy dst d src s n (d + k) ≡ src (s + k)
unfolding memcpy
memcpy_in dst d src s n k h = ground arith

pub memcpy_out :
    (dst : Mem) (d : ℕ) (src : Mem) (s n a : ℕ)
    → (d ≤ a → d + n ≤ a)
    → memcpy dst d src s n a ≡ dst a
unfolding memcpy
memcpy_out dst d src s n a h = ground arith

pub u32_at-set_u32 : (m : Mem) (o v : ℕ) → v < u32_mod → u32_at (set_u32 m o v) o ≡ v
unfolding u32_at set_u32
u32_at-set_u32 m o v h = ground arith

pub set_u32_out : (m : Mem) (o v a : ℕ) → (o ≤ a → o + 4 ≤ a) → set_u32 m o v a ≡ m a
unfolding set_u32
set_u32_out m o v a h = ground arith

pub set_u8_out : (m : Mem) (o v a : ℕ) → a ≢ o → set_u8 m o v a ≡ m a
unfolding set_u8
set_u8_out m o v a h = ground arith

pub u32_at-frame :
    (m m' : Mem) (o : ℕ) → ((a : ℕ) → o ≤ a → a < o + 4 → m' a ≡ m a) → u32_at m' o ≡ u32_at m o
unfolding u32_at
u32_at-frame m m' o same =
    let e0 = same o (omega arith) (omega arith) in
    let e1 = same (o + 1) (omega arith) (omega arith) in
    let e2 = same (o + 2) (omega arith) (omega arith) in
    let e3 = same (o + 3) (omega arith) (omega arith) in omega arith

pub u64_at-frame :
    (m m' : Mem) (o : ℕ) → ((a : ℕ) → o ≤ a → a < o + 8 → m' a ≡ m a) → u64_at m' o ≡ u64_at m o
unfolding u64_at
u64_at-frame m m' o same =
    let e0 = u32_at-frame m m' o (λ a p q. same a p (omega arith)) in
    let e1 = u32_at-frame m m' (o + 4) (λ a p q. same a (omega arith) (omega arith)) in omega arith

pub u64_at-set_u64 : (m : Mem) (o v : ℕ) → v < u64_mod → u64_at (set_u64 m o v) o ≡ v
unfolding u64_at set_u64
u64_at-set_u64 m o v h =
    let low : Mem = set_u32 m o (v % u32_mod) in
    let e0 =
      u32_at-frame low (set_u32 low (o + 4) (v / u32_mod)) o
        (λ a p q. set_u32_out low (o + 4) (v / u32_mod) a (λ r. absurd (omega arith))) in
    let e1 = u32_at-set_u32 m o (v % u32_mod) (omega arith) in
    let e2 = u32_at-set_u32 low (o + 4) (v / u32_mod) (omega arith) in omega arith

pub text_at-frame :
    (n : ℕ) (m m' : Mem) (a : ℕ)
    → ((b : ℕ) → a ≤ b → b < a + n → m' b ≡ m b)
    → text_at n m' a ≡ text_at n m a
unfolding text_at
text_at-frame zero m m' a same = refl
text_at-frame (suc n) m m' a same =
    let rest = text_at-frame n m m' (a + 1) (λ b p q. same b (omega arith) (omega arith)) in
    rw (text_at, same a (omega arith) (omega arith), rest) refl
