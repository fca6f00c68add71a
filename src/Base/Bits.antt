-- ===== src/Base/Bits.antt =====
-- Bit operations at variables, as far as the sources use them: the low three bits, which decide
-- the alignment of an address, and tables over a byte.
use Prim.Native.Nat.{
  ℕ, zero, suc, ◌+◌, ◌*◌, ◌/◌, ◌%◌, ◌≤◌, ◌<◌, min, max, bit_and, bit_or, bit_xor, digits, differ,
  bit_and-bitwise, bit_or-bitwise, bit_xor-bitwise,
}
use mathlib.Core.Path.{◌≡◌, refl, sym, ap, ◌∙◌}
use mathlib.Core.Logic.{◌↔◌}
use mathlib.Core.Bool.{Bool, true, ◌&&◌}
use native.Mathlib.Omega.{arith}

-- Whether a test holds at every number below the bound.
unfoldable pub holds_below : (ℕ → Bool) → ℕ → Bool
holds_below test zero = true
holds_below test (suc bound) = holds_below test bound && test bound

pub holds_below-at :
    (test : ℕ → Bool) (bound k : ℕ) → holds_below test bound ≡ true → k < bound → test k ≡ true
unfolding holds_below
holds_below-at test zero k all below = absurd (omega arith)
holds_below-at test (suc bound) k all below = ground (arith, holds_below-at test bound k)

-- `digits` counts down a fuel; enough of it is enough.
module _ (z : ℕ → ℕ) (f : ℕ → ℕ → ℕ) where
  digits-more : (n m a b : ℕ) → a ≤ n → a ≤ m → digits z f n a b ≡ digits z f m a b
  digits-more n m zero b p q = digits-none n b ∙ sym (digits-none m b)
    where
      digits-none : (k b : ℕ) → digits z f k 0 b ≡ z b
      digits-none zero b = refl
      digits-none (suc k) b = refl
  digits-more zero m (suc a) b p q = absurd (omega arith)
  digits-more (suc n) zero (suc a) b p q = absurd (omega arith)
  digits-more (suc n) (suc m) (suc a) b p q =
      ap (λ t. t * 2 + f (suc a % 2) (b % 2))
        (digits-more n m (suc a / 2) (b / 2) (omega arith) (omega arith))

  digits-halve :
      (a b : ℕ)
      → digits z f (suc a) (suc a) b
        ≡ digits z f (suc a / 2) (suc a / 2) (b / 2) * 2 + f (suc a % 2) (b % 2)
  digits-halve a b =
      ap (λ t. t * 2 + f (suc a % 2) (b % 2))
        (digits-more a (suc a / 2) (suc a / 2) (b / 2) (omega arith) (omega arith))

pub bit_and-halve : (a b : ℕ) → bit_and a b ≡ bit_and (a / 2) (b / 2) * 2 + min (a % 2) (b % 2)
bit_and-halve zero b = simp bit_and-bitwise (omega arith)
bit_and-halve (suc a) b = simp bit_and-bitwise (digits-halve (λ _. 0) min a b)

pub bit_or-halve : (a b : ℕ) → bit_or a b ≡ bit_or (a / 2) (b / 2) * 2 + max (a % 2) (b % 2)
bit_or-halve zero b = simp bit_or-bitwise (omega arith)
bit_or-halve (suc a) b = simp bit_or-bitwise (digits-halve (λ y. y) max a b)

differ_bit : (a b : ℕ) → a < 2 → b < 2 → differ a b ≡ (a + b) % 2
differ_bit zero b p q = omega arith
differ_bit (suc zero) zero p q = refl
differ_bit (suc zero) (suc zero) p q = refl
differ_bit (suc zero) (suc (suc b)) p q = absurd (omega arith)
differ_bit (suc (suc a)) b p q = absurd (omega arith)

pub bit_xor-halve : (a b : ℕ) → bit_xor a b ≡ bit_xor (a / 2) (b / 2) * 2 + (a % 2 + b % 2) % 2
bit_xor-halve zero b = simp bit_xor-bitwise (omega arith)
bit_xor-halve (suc a) b =
    rw (← differ_bit (suc a % 2) (b % 2) (omega arith) (omega arith))
      (simp bit_xor-bitwise (digits-halve (λ y. y) differ a b))

-- `x & 7`.
bit_and-zero : (n a : ℕ) → a ≤ n → bit_and a 0 ≡ 0
bit_and-zero n zero h = refl
bit_and-zero zero (suc a) h = absurd (omega arith)
bit_and-zero (suc n) (suc a) h =
    omega (arith, bit_and-halve (suc a) 0, bit_and-zero n (suc a / 2) (omega arith))

pub bit_and_seven : (a : ℕ) → bit_and a 7 ≡ a % 8
bit_and_seven a = omega (
  arith,
  bit_and-halve a 7,
  bit_and-halve (a / 2) 3,
  bit_and-halve (a / 2 / 2) 1,
  bit_and-zero (a / 2 / 2 / 2) (a / 2 / 2 / 2) (omega arith),
)

-- `(a | b) & 7` is zero exactly when both addresses are multiples of eight.
pub or_aligned_iff : (a b : ℕ) → (bit_and (bit_or a b) 7 ≡ 0) ↔ ((a % 8 ≡ 0) × (b % 8 ≡ 0))
or_aligned_iff a b = grind (
  arith,
  bit_and_seven (bit_or a b),
  bit_or-halve a b,
  bit_or-halve (a / 2) (b / 2),
  bit_or-halve (a / 2 / 2) (b / 2 / 2),
)

-- `(a ^ b) & 7` is zero exactly when both addresses have the same offset from a multiple of eight.
pub xor_aligned_iff : (a b : ℕ) → (bit_and (bit_xor a b) 7 ≡ 0) ↔ (a % 8 ≡ b % 8)
xor_aligned_iff a b = grind (
  arith,
  bit_and_seven (bit_xor a b),
  bit_xor-halve a b,
  bit_xor-halve (a / 2) (b / 2),
  bit_xor-halve (a / 2 / 2) (b / 2 / 2),
)
