-- ===== src/Socket/Pools.antt =====
-- src/socket: what the pools hand out.
use dmmr_orbit.Base.{
  take_all, ℕ, zero, suc, ◌+◌, ◌<◌, leb, Bool-cases, Option-cases, Bool, true, false, Option, none,
  some, List, [], ◌∷◌, length, get_elem?, take, ◌≡◌, refl, ap, ◌⊎◌, inl, inr, arith, fault,
}
use dmmr_orbit.Base.Sort.{All}
use dmmr_orbit.Node.{Node}
use dmmr_orbit.Socket.{
  Pool, find_free, hand_out, next_slot, get_node, is_free_node, find_free_entry,
  get_struct_node_buffer, new_nbuff,
}

module _ {A : Type 0} (is_free : A → Bool) where
  -- Either the first free slot is found, or none is free.
  pub find_free_lem :
      (i : ℕ) (xs : List A)
      → ((k : ℕ) × (x : A) × (find_free is_free i xs ≡ some (i + k))
          × (get_elem? xs k ≡ some x)
          × (is_free x ≡ true)
          × All (λ y. is_free y ≡ false) (take k xs))
        ⊎ ((find_free is_free i xs ≡ none) × All (λ y. is_free y ≡ false) xs)
  unfolding find_free
  find_free_lem i [] = inr (refl, tt)
  find_free_lem i (x ∷ xs) = elim (Bool-cases (is_free x)) [
    | inl free ↦ inl (0, x, rw (find_free, free) (ap some (omega arith)), refl, free, tt)
    | inr taken ↦ elim (find_free_lem (i + 1) xs) [
      | inl (k, y, e, at, f, before) ↦
          inl (suc k, y, rw (find_free, taken, e) (ap some (omega arith)), at, f, (taken, before))
      | inr (e, all) ↦ inr (rw (find_free, taken) e, (taken, all))
    ]
  ]

-- With a free node among the ones of the pool, `get_node` returns the first free one and leaves the
-- pool as it is. With none free, and a count below the size, it returns the node at the count,
-- which is in use.
pub get_node_lem :
    (fresh : Option (List Node)) (p : Pool Node)
    → p.size ≡ length p.slots
    → p.count < p.size
    → (i : ℕ) × (n : Node) × (get_elem? p.slots i ≡ some n)
      × (((get_node fresh p ≡ (some i, p))
            × (is_free_node n ≡ true)
            × All (λ m. is_free_node m ≡ false) (take i p.slots))
          ⊎ ((get_node fresh p ≡ (some i, record p { count = p.count + 1 }))
              × (is_free_node n ≡ false)
              × All (λ m. is_free_node m ≡ false) p.slots))
unfolding get_node next_slot
get_node_lem fresh p full below =
    let whole : take p.size p.slots ≡ p.slots = rw full (take_all p.slots) in
    let room : leb p.size p.count ≡ false = ground arith in
    elim (find_free_lem is_free_node 0 p.slots) [
      | inl (k, n, e, at, free, before) ↦
          let same : 0 + k ≡ k = omega arith in
          (k, n, at, inl (rw (get_node, hand_out, whole, e, same) refl, free, before))
      | inr (e, all) ↦
          let (n, at, taken) = All_at p.slots p.count (omega arith) all in
          (
            p.count,
            n,
            at,
            inr (rw (get_node, hand_out, whole, e, next_slot, room) refl, taken, all),
          )
    ]
  where
    All_at :
        (xs : List Node) (i : ℕ)
        → i < length xs
        → All (λ m. is_free_node m ≡ false) xs
        → (n : Node) × (get_elem? xs i ≡ some n) × (is_free_node n ≡ false)
    All_at [] i h all = ground arith
    All_at (x ∷ xs) zero h all = (x, refl, all.0)
    All_at (x ∷ xs) (suc i) h all = All_at xs i (omega arith) all.1

-- On the entries that a new socket has, asking for one reads the null node of the first.
pub get_struct_node_buffer_faults :
    (fresh : Option (List (Option Node))) → get_struct_node_buffer fresh new_nbuff ≡ fault
unfolding get_struct_node_buffer find_free_entry
get_struct_node_buffer_faults fresh = refl

-- The pool of nodes as the program leaves it, with nothing behind its null pointer: whatever a realloc
-- of it returns, it stays that way, so that an index that `get_node` hands out is one of no slot.
pub get_node_unstarted :
    (fresh : Option (List Node)) (count : ℕ)
    → (r : Option ℕ) × (count' : ℕ) × (get_node fresh
          (record { slots = []; size = 0; count = count })
        ≡ (r, record { slots = []; size = 0; count = count' }))
unfolding get_node find_free next_slot
get_node_unstarted fresh count =
    let full : leb 0 count ≡ true = ground arith in
    elim (Option-cases fresh) [
      | inl none_left ↦ (none, count, rw (full, none_left) refl)
      | inr (new, e) ↦ (some count, count + 1, rw (full, e) refl)
    ]
