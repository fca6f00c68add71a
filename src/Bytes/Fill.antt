-- ===== src/Bytes/Fill.antt =====
-- `__mset`, the variant for x86; a build with ARCH_SAFE_MEMSET takes memset in its place.
use Prim.Native.Nat.{bit_or}
use mathlib.Core.Path.{fun_ext}
use dmmr_orbit.Base.{
  ℕ, zero, suc, ◌+◌, ◌-◌, ◌*◌, ◌/◌, ◌%◌, ◌^◌, ◌≤◌, ◌<◌, ◌≡◌, refl, ◌∙◌, arith, ltb, leb, ◌==◌,
  ==_iff, if◌then◌else◌, ◌&&◌, Bool-cases, true, inl, inr,
}
use dmmr_orbit.Base.Bits.{holds_below, holds_below-at}
use dmmr_orbit.Bytes.{Memory, poke}

-- Every byte of `n` from `s` on is `v`.
abbrev pub filled : ℕ → Memory → ℕ → ℕ → Memory
filled n m s v = λ x. if leb s x && ltb x (s + n) then v else m x

-- `*xs++ = c` for `n` rounds; a char keeps the low byte.
unfoldable pub fill_bytes : ℕ → Memory → ℕ → ℕ → Memory
fill_bytes zero m xs c = m
fill_bytes (suc n) m xs c = fill_bytes n (poke m xs (c % 256)) (xs + 1) c

-- `c16`: the byte repeated, in a `uint64_t`.
unfoldable pub repeated : ℕ → ℕ
repeated c =
    let a = bit_or c (c * 2 ^ 8 % 2 ^ 64) in
    let b = bit_or a (a * 2 ^ 16 % 2 ^ 64) in bit_or b (b * 2 ^ 32 % 2 ^ 64)

-- `*x16 = v` for a `uint64_t`, lowest byte first.
abbrev pub store_u64 : Memory → ℕ → ℕ → Memory
store_u64 m d v = λ x. if leb d x && ltb x (d + 8) then v / 2 ^ (8 * (x - d)) % 2 ^ 8 else m x

-- Two stores of `c16` for each of `n16` rounds.
unfoldable pub fill_pairs : ℕ → Memory → ℕ → ℕ → Memory
fill_pairs zero m x16 v = m
fill_pairs (suc n) m x16 v = fill_pairs n (store_u64 (store_u64 m x16 v) (x16 + 8) v) (x16 + 16) v

-- `(16 - (xs & 15)) & 15`.
abbrev pub to_boundary : ℕ → ℕ
to_boundary xs = (16 - xs % 16) % 16

-- The pairs of words, then the bytes that are left. `n & 15` is taken only when a pair was stored,
-- and is `n` otherwise.
unfoldable pub fill_tail : Memory → ℕ → ℕ → ℕ → Memory
unfolding fill_bytes fill_pairs repeated
fill_tail m xs c n =
    let n16 = n / 16 in
    if ltb 0 n16
    then fill_bytes (n % 16) (fill_pairs n16 m xs (repeated c)) (xs + 16 * n16) c
    else fill_bytes n m xs c

-- `c` is the value of a non-negative int; `IS_CONSTANT_BYTE(c)` says that no bit above the low
-- byte is set.
unfoldable pub mset : Memory → ℕ → ℕ → ℕ → Memory
unfolding fill_bytes fill_tail
mset m s c n =
    if n == 0
    then m
    else (if c / 256 == 0
        then (if leb 16 n
            then (let align = to_boundary s in
                if ltb 0 align && leb align n
                then fill_tail (fill_bytes align m s c) (s + align) c (n - align)
                else fill_tail m s c n)
            else fill_bytes n m s c)
        else fill_bytes n m s c)

filled_ext :
    (n : ℕ) (m m' : Memory) (s v : ℕ)
    → ((x : ℕ) → m x ≡ m' x)
    → (x : ℕ) → filled n m s v x ≡ filled n m' s v x
filled_ext n m m' s v h x = rw (fun_ext h)

filled_append :
    (j k n : ℕ) (m : Memory) (s v s' : ℕ)
    → j + k ≡ n
    → s' ≡ s + j
    → (x : ℕ) → filled k (filled j m s v) s' v x ≡ filled n m s v x
filled_append j k n m s v s' e es x = grind arith

fill_bytes_lem :
    (n : ℕ) (m : Memory) (xs c : ℕ) → (x : ℕ) → fill_bytes n m xs c x ≡ filled n m xs (c % 256) x
unfolding fill_bytes
fill_bytes_lem zero m xs c x = ground arith
fill_bytes_lem (suc n) m xs c x =
    fill_bytes_lem n (poke m xs (c % 256)) (xs + 1) c x
    ∙ (filled_ext n (poke m xs (c % 256)) (filled 1 m xs (c % 256)) (xs + 1) _ (λ y. grind arith) x
        ∙ filled_append 1 n (suc n) m xs (c % 256) (xs + 1) (omega arith) refl x)

repeated_table :
    holds_below (λ c. holds_below (λ i. repeated c / 2 ^ (8 * i) % 2 ^ 8 == c) 8) 256 ≡ true
unfolding holds_below repeated
repeated_table = refl

-- Each of the eight bytes of `c16` is `c`.
repeated_byte : (c i : ℕ) → c < 256 → i < 8 → repeated c / 2 ^ (8 * i) % 2 ^ 8 ≡ c
repeated_byte c i hc hi = (==_iff _ c).0 (
    holds_below-at (λ i. repeated c / 2 ^ (8 * i) % 2 ^ 8 == c) 8 i
      (holds_below-at (λ c. holds_below (λ i. repeated c / 2 ^ (8 * i) % 2 ^ 8 == c) 8) 256 c
        repeated_table hc)
      hi)

store_repeated :
    (m : Memory) (d c : ℕ) → c < 256 → (x : ℕ) → store_u64 m d (repeated c) x ≡ filled 8 m d c x
store_repeated m d c hc x = elim (Bool-cases (leb d x && ltb x (d + 8))) [
  | inl within ↦ rw within (repeated_byte c (x - d) hc (ground arith))
  | inr beyond ↦ rw beyond
]

fill_pairs_lem :
    (n : ℕ) (m : Memory) (d c : ℕ)
    → c < 256
    → (x : ℕ) → fill_pairs n m d (repeated c) x ≡ filled (16 * n) m d c x
unfolding fill_pairs
fill_pairs_lem zero m d c hc x = ground arith
fill_pairs_lem (suc n) m d c hc x =
    fill_pairs_lem n (store_u64 m1 (d + 8) v) (d + 16) c hc x
    ∙ (filled_ext (16 * n) (store_u64 m1 (d + 8) v) (filled 16 m d c) (d + 16) c two x
        ∙ filled_append 16 (16 * n) (16 * suc n) m d c (d + 16) (omega arith) refl x)
  where
    v : ℕ
    v = repeated c

    m1 : Memory
    m1 = store_u64 m d v

    two : (y : ℕ) → store_u64 m1 (d + 8) v y ≡ filled 16 m d c y
    two y =
        store_repeated m1 (d + 8) c hc y
        ∙ (filled_ext 8 m1 (filled 8 m d c) (d + 8) c (store_repeated m d c hc) y
            ∙ filled_append 8 8 16 m d c (d + 8) (omega arith) refl y)

fill_tail_lem :
    (m : Memory) (xs c n : ℕ) → c < 256 → (x : ℕ) → fill_tail m xs c n x ≡ filled n m xs c x
unfolding fill_tail
fill_tail_lem m xs c n hc x = elim (Bool-cases (ltb 0 (n / 16))) [
  | inr short ↦ rw short (fill_low n m xs x)
  | inl long ↦ rw long (
      fill_low (n % 16) (fill_pairs w m xs (repeated c)) (xs + 16 * w) x
      ∙ (filled_ext (n % 16) (fill_pairs w m xs (repeated c)) (filled (16 * w) m xs c) _ c
            (fill_pairs_lem w m xs c hc) x
          ∙ filled_append (16 * w) (n % 16) n m xs c _ (omega arith) refl x))
]
  where
    w : ℕ
    w = n / 16

    fill_low : (k : ℕ) (m' : Memory) (s : ℕ) → (y : ℕ) → fill_bytes k m' s c y ≡ filled k m' s c y
    fill_low k m' s y = fill_bytes_lem k m' s c y ∙ ground arith

fill_head_tail :
    (m : Memory) (s c n a : ℕ)
    → c < 256
    → a ≤ n
    → (x : ℕ) → fill_tail (fill_bytes a m s c) (s + a) c (n - a) x ≡ filled n m s c x
fill_head_tail m s c n a hc le x =
    fill_tail_lem (fill_bytes a m s c) (s + a) c (n - a) hc x
    ∙ (filled_ext (n - a) (fill_bytes a m s c) (filled a m s c) (s + a) c
          (λ y. fill_bytes_lem a m s c y ∙ ground arith) x
        ∙ filled_append a (n - a) n m s c (s + a) (omega arith) refl x)

mset_byte :
    (m : Memory) (s c n : ℕ)
    → c < 256
    → (x : ℕ)
    → (if leb 16 n
          then (if ltb 0 (to_boundary s) && leb (to_boundary s) n
              then fill_tail
                  (fill_bytes (to_boundary s) m s c)
                  (s + to_boundary s)
                  c
                  (n - to_boundary s)
              else fill_tail m s c n)
          else fill_bytes n m s c)
        x
      ≡ filled n m s (c % 256) x
mset_byte m s c n hc x = elim (Bool-cases (leb 16 n)) [
  | inr small ↦ rw small (fill_bytes_lem n m s c x)
  | inl big ↦
      rw (big, low)
        (elim (Bool-cases (ltb 0 (to_boundary s) && leb (to_boundary s) n)) [
          | inl odd ↦ rw odd (fill_head_tail m s c n (to_boundary s) hc (ground arith) x)
          | inr even ↦ rw even (fill_tail_lem m s c n hc x)
        ])
]
  where
    low : c % 256 ≡ c
    low = omega arith

-- `__mset` is memset: at every alignment and length, with or without the word loop, the `n` bytes
-- from `s` on become the low byte of `c` and no other byte changes.
pub mset-filled : (m : Memory) (s c n : ℕ) → (x : ℕ) → mset m s c n x ≡ filled n m s (c % 256) x
unfolding mset
mset-filled m s c n x = elim (Bool-cases (n == 0)) [
  | inl none_left ↦ rw none_left (ground arith)
  | inr some_left ↦ rw some_left (elim (Bool-cases (c / 256 == 0)) [
    | inr wide ↦ rw wide (fill_bytes_lem n m s c x)
    | inl byte ↦ rw byte (mset_byte m s c n (ground arith) x)
  ])
]
