-- ===== src/NodeRecv/Search.antt =====
-- The circular search of the two getters ends, and finds the first slot in circular order.
use dmmr_orbit.Base.{
  ℕ, zero, suc, ◌+◌, ◌%◌, ◌≤◌, ◌<◌, ◌≡◌, arith, Bool, true, false, Bool-cases, inl, inr, Option,
  none, some, List, ret, ◌==◌, dec_lt,
}
use dmmr_orbit.NodeRecv.{NodeBuffer, status_at, search, next}

module _ (wanted : ℕ → Bool) (buf : List NodeBuffer) (start : ℕ) where
  -- The test at the slot `i` places after `start`.
  abbrev pub passes : ℕ → Bool
  passes i = wanted (status_at buf ((start + i) % 256))

  -- The result is the first slot from the `k`-th place on that passes; none means that none does.
  abbrev pub FindsFirst : ℕ → Option ℕ → Type 0
  FindsFirst k none = (i : ℕ) → k ≤ i → i < 256 → passes i ≡ false
  FindsFirst k (some p) =
      (j : ℕ) × (k ≤ j)
      × (j < 256)
      × (p ≡ (start + j) % 256)
      × (passes j ≡ true)
      × ((i : ℕ) → k ≤ i → i < j → passes i ≡ false)

  FindsFirst-earlier :
      (k : ℕ) (r : Option ℕ) → passes k ≡ false → FindsFirst (suc k) r → FindsFirst k r
  FindsFirst-earlier k none miss f = λ i lo hi. elim (dec_lt k i) [
    | yes above ↦ f i above hi
    | no not_above ↦ let e : i ≡ k = omega arith in rw e miss
  ]
  FindsFirst-earlier k (some p) miss (j, lo, hi, at, hit, before) =
      (j, omega arith, hi, at, hit, rest)
    where
      rest : (i : ℕ) → k ≤ i → i < j → passes i ≡ false
      rest i low high = elim (dec_lt k i) [
        | yes above ↦ before i above high
        | no not_above ↦ let e : i ≡ k = omega arith in rw e miss
      ]

  found :
      (k current : ℕ)
      → k < 256
      → current ≡ (start + k) % 256
      → wanted (status_at buf current) ≡ true
      → FindsFirst k (some current)
  found k current below at hit =
      (k, omega arith, below, at, rw at at hit, λ i lo hi. absurd (omega arith))

  pub search_lem :
      (fuel k current : ℕ)
      → start < 256
      → k + suc fuel ≡ 256
      → current ≡ (start + k) % 256
      → (r : Option ℕ) × (search wanted (suc fuel) buf start current ≡ ret r) × FindsFirst k r
  unfolding search
  search_lem zero k current small e at = elim (Bool-cases (wanted (status_at buf current))) [
    | inl hit ↦ (some current, rw hit, found k current (omega arith) at hit)
    | inr miss ↦
        (none, rw (miss, back), λ i lo hi. let same : i ≡ k = omega arith in rw (same, ← at) miss)
  ]
    where
      back : (next current == start) ≡ true
      back = ground arith
  search_lem (suc fuel) k current small e at = elim (Bool-cases (wanted (status_at buf current))) [
    | inl hit ↦ (some current, rw hit, found k current (omega arith) at hit)
    | inr miss ↦
        let (r, runs, first) =
          search_lem fuel (suc k) (next current) small (omega arith) (omega arith) in
        (r, rw (miss, on) runs, FindsFirst-earlier k r (rw at at miss) first)
  ]
    where
      on : (next current == start) ≡ false
      on = ground arith

pub search_hit :
    (wanted : ℕ → Bool) (fuel : ℕ) (buf : List NodeBuffer) (start current : ℕ)
    → wanted (status_at buf current) ≡ true
    → search wanted (suc fuel) buf start current ≡ ret (some current)
unfolding search
search_hit wanted fuel buf start current hit = rw hit
