-- ===== src/Text/Flag.antt =====
-- The word test of `__vlen`: a word with a NUL among its bytes has a flag that is not zero.
use Prim.Native.Nat.{bit_and, min}
use dmmr_orbit.Base.{
  ℕ, zero, suc, ◌+◌, ◌-◌, ◌*◌, ◌/◌, ◌%◌, ◌^◌, ◌<◌, ◌≤◌, ◌≡◌, ◌≢◌, refl, ap, ◌∙◌, arith,
}
use dmmr_orbit.Base.Bits.{bit_and-halve}
use dmmr_orbit.Text.{flag, mask01, mask80}

-- A number without its lowest `k` bits.
abbrev shift : ℕ → ℕ → ℕ
shift zero a = a
shift (suc k) a = shift k (a / 2)

bit_and-shift : (k a b : ℕ) → shift k (bit_and a b) % 2 ≡ min (shift k a % 2) (shift k b % 2)
bit_and-shift zero a b = omega (arith, bit_and-halve a b)
bit_and-shift (suc k) a b =
    let half : bit_and a b / 2 ≡ bit_and (a / 2) (b / 2) = omega (arith, bit_and-halve a b) in
    rw half (bit_and-shift k (a / 2) (b / 2))

shift-byte :
    (k a : ℕ) → shift (suc (suc (suc (suc (suc (suc (suc (suc k)))))))) a ≡ shift k (a / 256)
shift-byte k a = ap (shift k) (omega arith)

shift_zero : (k : ℕ) → shift k 0 ≡ 0
shift_zero zero = refl
shift_zero (suc k) = ap (shift k) (omega arith) ∙ shift_zero k

-- Bit 7 of byte `i`.
abbrev byte_of : ℕ → ℕ → ℕ
byte_of zero a = a
byte_of (suc i) a = byte_of i (a / 256)

abbrev place : ℕ → ℕ
place zero = 7
place (suc i) = suc (suc (suc (suc (suc (suc (suc (suc (place i))))))))

shift-place : (i a : ℕ) → shift (place i) a ≡ byte_of i a / 128
shift-place zero a = omega arith
shift-place (suc i) a = shift-byte (place i) a ∙ shift-place i (a / 256)

-- Where bit 7 of a byte is set in both numbers, their conjunction is not zero.
bit_and-ne_zero :
    (i a b : ℕ) → byte_of i a / 128 % 2 ≡ 1 → byte_of i b / 128 % 2 ≡ 1 → bit_and a b ≢ 0
bit_and-ne_zero i a b ha hb e =
    let both = bit_and-shift (place i) a b in
    let none_left : shift (place i) (bit_and a b) ≡ 0 =
      ap (shift (place i)) e ∙ shift_zero (place i) in
    omega (arith, both, none_left, shift-place i a, shift-place i b)

top_of_mask :
    (i b : ℕ)
    → byte_of i (bit_and b mask80) / 128 % 2
      ≡ min (byte_of i b / 128 % 2) (byte_of i mask80 / 128 % 2)
top_of_mask i b = omega (
  arith,
  bit_and-shift (place i) b mask80,
  shift-place i (bit_and b mask80),
  shift-place i b,
  shift-place i mask80,
)

-- With `w` split at its first NUL: the bytes below it, `lo`, hold at least one each.

pub flag_0 : (lo hi : ℕ) → 0x0 ≤ lo → lo < 0x1 → hi < 0x100000000000000 → flag (lo + 0x100 * hi) ≢ 0
unfolding flag
flag_0 lo hi least below above =
    let w = lo + 0x100 * hi in
    bit_and-ne_zero 0 ((w + 2 ^ 64 - mask01) % 2 ^ 64) (bit_and (2 ^ 64 - 1 - w) mask80)
      (omega arith) (top_of_mask 0 (2 ^ 64 - 1 - w) ∙ omega arith)

pub flag_1 :
    (lo hi : ℕ) → 0x1 ≤ lo → lo < 0x100 → hi < 0x1000000000000 → flag (lo + 0x10000 * hi) ≢ 0
unfolding flag
flag_1 lo hi least below above =
    let w = lo + 0x10000 * hi in
    bit_and-ne_zero 1 ((w + 2 ^ 64 - mask01) % 2 ^ 64) (bit_and (2 ^ 64 - 1 - w) mask80)
      (omega arith) (top_of_mask 1 (2 ^ 64 - 1 - w) ∙ omega arith)

pub flag_2 :
    (lo hi : ℕ) → 0x101 ≤ lo → lo < 0x10000 → hi < 0x10000000000 → flag (lo + 0x1000000 * hi) ≢ 0
unfolding flag
flag_2 lo hi least below above =
    let w = lo + 0x1000000 * hi in
    bit_and-ne_zero 2 ((w + 2 ^ 64 - mask01) % 2 ^ 64) (bit_and (2 ^ 64 - 1 - w) mask80)
      (omega arith) (top_of_mask 2 (2 ^ 64 - 1 - w) ∙ omega arith)

pub flag_3 :
    (lo hi : ℕ)
    → 0x10101 ≤ lo
    → lo < 0x1000000
    → hi < 0x100000000
    → flag (lo + 0x100000000 * hi) ≢ 0
unfolding flag
flag_3 lo hi least below above =
    let w = lo + 0x100000000 * hi in
    bit_and-ne_zero 3 ((w + 2 ^ 64 - mask01) % 2 ^ 64) (bit_and (2 ^ 64 - 1 - w) mask80)
      (omega arith) (top_of_mask 3 (2 ^ 64 - 1 - w) ∙ omega arith)

pub flag_4 :
    (lo hi : ℕ)
    → 0x1010101 ≤ lo
    → lo < 0x100000000
    → hi < 0x1000000
    → flag (lo + 0x10000000000 * hi) ≢ 0
unfolding flag
flag_4 lo hi least below above =
    let w = lo + 0x10000000000 * hi in
    bit_and-ne_zero 4 ((w + 2 ^ 64 - mask01) % 2 ^ 64) (bit_and (2 ^ 64 - 1 - w) mask80)
      (omega arith) (top_of_mask 4 (2 ^ 64 - 1 - w) ∙ omega arith)

pub flag_5 :
    (lo hi : ℕ)
    → 0x101010101 ≤ lo
    → lo < 0x10000000000
    → hi < 0x10000
    → flag (lo + 0x1000000000000 * hi) ≢ 0
unfolding flag
flag_5 lo hi least below above =
    let w = lo + 0x1000000000000 * hi in
    bit_and-ne_zero 5 ((w + 2 ^ 64 - mask01) % 2 ^ 64) (bit_and (2 ^ 64 - 1 - w) mask80)
      (omega arith) (top_of_mask 5 (2 ^ 64 - 1 - w) ∙ omega arith)

pub flag_6 :
    (lo hi : ℕ)
    → 0x10101010101 ≤ lo
    → lo < 0x1000000000000
    → hi < 0x100
    → flag (lo + 0x100000000000000 * hi) ≢ 0
unfolding flag
flag_6 lo hi least below above =
    let w = lo + 0x100000000000000 * hi in
    bit_and-ne_zero 6 ((w + 2 ^ 64 - mask01) % 2 ^ 64) (bit_and (2 ^ 64 - 1 - w) mask80)
      (omega arith) (top_of_mask 6 (2 ^ 64 - 1 - w) ∙ omega arith)

pub flag_7 :
    (lo hi : ℕ)
    → 0x1010101010101 ≤ lo
    → lo < 0x100000000000000
    → hi < 0x1
    → flag (lo + 0x10000000000000000 * hi) ≢ 0
unfolding flag
flag_7 lo hi least below above =
    let w = lo + 0x10000000000000000 * hi in
    bit_and-ne_zero 7 ((w + 2 ^ 64 - mask01) % 2 ^ 64) (bit_and (2 ^ 64 - 1 - w) mask80)
      (omega arith) (top_of_mask 7 (2 ^ 64 - 1 - w) ∙ omega arith)
