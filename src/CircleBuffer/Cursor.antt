-- ===== src/CircleBuffer/Cursor.antt =====
-- How the cursor of the ring moves, and what `is_behind_cursor` decides.
use native.Mathlib.Nat.{
  mod-add-mod, mod-eq_of_lt, mod-lt, mod_self, add-zero, mul-lt-mul_of_pos_right,
}
use dmmr_orbit.Base.{
  ℕ, zero, suc, ◌+◌, ◌-◌, ◌*◌, ◌%◌, ◌<◌, ◌≡◌, ◌≢◌, ◌↔◌, ◌⊎◌, refl, ap, ◌∙◌, arith, inl, inr, true,
  some, Run, ret, hang, ◌>>=◌, dec_lt, ℕ_discrete,
}
use dmmr_orbit.CircleBuffer.{
  Position, slot, head, circleq_next, foward_current_node, iterate, get_current_node, is_behind,
}

-- One step: the cursor goes round all slots but the last.
pub foward_current_node_lem :
    (n i : ℕ) → i + 1 < n → foward_current_node n (slot i) ≡ ret (slot ((i + 1) % (n - 1)))
unfolding foward_current_node circleq_next
foward_current_node_lem n i lt = elim (ℕ_discrete (i + 2) n) [
  | yes last ↦ ground (arith, round last)
  | no inner ↦ ground (arith, mod-eq_of_lt {n = i + 1} {m = n - 1} (omega arith))
]
  where
    round : i + 2 ≡ n → (i + 1) % (n - 1) ≡ 0
    round last = let e : n - 1 ≡ i + 1 = omega arith in rw e (mod_self (i + 1))

-- Places are counted modulo the size less one.
pub place_zero : (n i : ℕ) → i + 1 < n → (i + 0) % (n - 1) ≡ i
place_zero n i lt = rw add-zero (mod-eq_of_lt (omega arith))

pub place_suc : (n i k : ℕ) → ((i + 1) % (n - 1) + k) % (n - 1) ≡ (i + suc k) % (n - 1)
place_suc n i k = mod-add-mod (i + 1) (n - 1) k ∙ ap (λ t. t % (n - 1)) (omega arith)

pub place_below : (n i : ℕ) → i + 1 < n → (i + 1) % (n - 1) + 1 < n
place_below n i lt = omega (arith, mod-lt (i + 1) {m = n - 1})

-- `k` steps in a row.
pub advance : ℕ → ℕ → Position → Run Position
advance n zero cursor = ret cursor
advance n (suc k) cursor = foward_current_node n cursor >>= λ next. advance n k next

-- From any slot but the last of a ring of at least two, any number of steps reaches the slot that
-- many places on, counted modulo the size less one: no step faults, and the last slot is never
-- reached.
pub advance_lem :
    (n k i : ℕ)
    → i + 1 < n
    → (advance n k (slot i) ≡ ret (slot ((i + k) % (n - 1)))) × ((i + k) % (n - 1) + 1 < n)
unfolding advance
advance_lem n zero i lt = (rw (place_zero n i lt), rw (place_zero n i lt) lt)
advance_lem n (suc k) i lt =
    let (runs, below) = advance_lem n k ((i + 1) % (n - 1)) (place_below n i lt) in
    (rw (foward_current_node_lem n i lt, ← place_suc n i k) runs, rw (← place_suc n i k) below)

-- The exported getter returns after no number of calls of itself.
pub get_current_node_hangs : (fuel : ℕ) → get_current_node fuel ≡ hang
unfolding get_current_node
get_current_node_hangs zero = refl
get_current_node_hangs (suc fuel) = get_current_node_hangs fuel

-- For two slots of the array the address arithmetic of `is_behind_cursor`, wrap included, says
-- exactly that they are different slots.
pub is_behind_iff :
    (base size n i j : ℕ)
    → 0 < size
    → i < n
    → j < n
    → (is_behind base (base + n * size) (base + i * size) (base + j * size) ≡ true) ↔ (i ≢ j)
unfolding is_behind
is_behind_iff base size n i j pos hi hj = elim (ℕ_discrete i j) [
  | yes same ↦ ground (arith, ap (λ (k : ℕ). k * size) same)
  | no other ↦ ground (arith, end i hi, end j hj, apart)
]
  where
    end : (k : ℕ) → k < n → k * size < n * size
    end k lt = mul-lt-mul_of_pos_right lt pos

    apart : i ≢ j → (i * size < j * size) ⊎ (j * size < i * size)
    apart other = elim (dec_lt i j) [
      | yes below ↦ inl (mul-lt-mul_of_pos_right below pos)
      | no above ↦ inr (mul-lt-mul_of_pos_right (omega arith) pos)
    ]

-- `iterate` moves a cursor as `foward_current_node` does.
pub iterate-foward :
    (n : ℕ) (cursor : Position)
    → 0 < n
    → iterate n (some cursor) ≡ (foward_current_node n cursor >>= λ next. ret (some next))
unfolding iterate foward_current_node
iterate-foward n head pos = ground arith
iterate-foward n (slot i) pos = ground arith
