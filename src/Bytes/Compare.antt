-- ===== src/Bytes/Compare.antt =====
-- `__vcmp`.
use dmmr_orbit.Base.{ℕ, zero, suc, ◌<◌, ◌≡◌, ◌↔◌, refl, arith, ◌==◌, if◌then◌else◌}
use dmmr_orbit.Base.Int.{ℤ, pos, sub_ℕ, neg}

-- `p1` and `p2` are the bytes from the two pointers on.
unfoldable pub vcmp : (ℕ → ℕ) → (ℕ → ℕ) → ℕ → ℤ
vcmp p1 p2 zero = pos 0
vcmp p1 p2 (suc n) =
    if p1 0 == p2 0 then vcmp (λ i. p1 (suc i)) (λ i. p2 (suc i)) n else sub_ℕ (p1 0) (p2 0)

vcmp→agree : (p1 p2 : ℕ → ℕ) (n : ℕ) → vcmp p1 p2 n ≡ pos 0 → (i : ℕ) → i < n → p1 i ≡ p2 i
unfolding vcmp
vcmp→agree p1 p2 zero e i lt = absurd (omega arith)
vcmp→agree p1 p2 (suc n) e zero lt = ground arith
vcmp→agree p1 p2 (suc n) e (suc i) lt =
    vcmp→agree (λ k. p1 (suc k)) (λ k. p2 (suc k)) n (ground arith) i (omega arith)

agree→vcmp : (p1 p2 : ℕ → ℕ) (n : ℕ) → ((i : ℕ) → i < n → p1 i ≡ p2 i) → vcmp p1 p2 n ≡ pos 0
unfolding vcmp
agree→vcmp p1 p2 zero h = refl
agree→vcmp p1 p2 (suc n) h = ground (
  arith,
  h 0 (omega arith),
  agree→vcmp (λ k. p1 (suc k)) (λ k. p2 (suc k)) n (λ i lt. h (suc i) (omega arith)),
)

-- `__vcmp` is zero exactly when the first `n` bytes agree.
pub vcmp_iff : (p1 p2 : ℕ → ℕ) (n : ℕ) → (vcmp p1 p2 n ≡ pos 0) ↔ ((i : ℕ) → i < n → p1 i ≡ p2 i)
vcmp_iff p1 p2 n = (vcmp→agree p1 p2 n, agree→vcmp p1 p2 n)

-- Exchanging the operands negates the result.
pub vcmp_swap : (p1 p2 : ℕ → ℕ) (n : ℕ) → vcmp p2 p1 n ≡ neg (vcmp p1 p2 n)
unfolding vcmp
vcmp_swap p1 p2 zero = refl
vcmp_swap p1 p2 (suc n) = ground (arith, vcmp_swap (λ i. p1 (suc i)) (λ i. p2 (suc i)) n)
