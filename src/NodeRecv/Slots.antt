-- ===== src/NodeRecv/Slots.antt =====
-- What the operations do to the slots, whatever their history.
use dmmr_orbit.Base.{
  ℕ, zero, suc, ◌<◌, ◌≡◌, ◌≢◌, refl, arith, true, false, Option, some, List, [], ◌∷◌, ret, ◌==◌,
  if◌then◌else◌, length, get_elem?, length-set, get_elem?-set_self, get_elem?-set_ne, Option-cases,
  inl, inr, Bool-cases,
}
use dmmr_orbit.NodeRecv.{
  NodeBuffer, NodeRecvManager, status_at, set_status, is_free, is_busy, take_free, take_busy,
  get_free_node, get_buzy_node,
}
use dmmr_orbit.NodeRecv.Search.{FindsFirst, search_lem}

-- All 256 slots are there, both indices are `uint8_t`s, and nobody holds the mutex.
pub record IsIdle (m : NodeRecvManager) : Type 0 where
  pub unlocked : m.mutex ≡ false
  pub size : length m.buffer ≡ 256
  pub free_index : m.next_free_index < 256
  pub busy_index : m.next_busy_index < 256

get_elem?_in :
    (buf : List NodeBuffer) (i : ℕ) → i < length buf → (b : NodeBuffer) × (get_elem? buf i ≡ some b)
get_elem?_in [] i lt = absurd (omega arith)
get_elem?_in (b ∷ bs) zero lt = (b, refl)
get_elem?_in (b ∷ bs) (suc i) lt = get_elem?_in bs i (omega arith)

pub length-set_status : (buf : List NodeBuffer) (i v : ℕ) → length (set_status buf i v) ≡ length buf
length-set_status buf i v = elim (Option-cases (get_elem? buf i)) [
  | inl out ↦ rw (out, set_status)
  | inr (b, at) ↦ rw (at, set_status) (length-set buf i _)
]

status_at-set_status_self :
    (buf : List NodeBuffer) (i j v : ℕ)
    → i < length buf
    → i ≡ j
    → status_at (set_status buf i v) j ≡ v
status_at-set_status_self buf i j v lt same =
    let (b, at) = get_elem?_in buf i lt in
    rw (← same) (
      rw (at, set_status)
        (rw (get_elem?-set_self buf i (record b { node_buffer_status = v }) lt, status_at)))

pub status_at-set_status_ne :
    (buf : List NodeBuffer) (i j v : ℕ)
    → i < length buf
    → i ≢ j
    → status_at (set_status buf i v) j ≡ status_at buf j
status_at-set_status_ne buf i j v lt other =
    let (b, at) = get_elem?_in buf i lt in
    rw (at, set_status)
      (rw (
        get_elem?-set_ne buf {i = i} {j = j} (record b { node_buffer_status = v }) other,
        status_at,
      ))

-- Changing one status leaves the others alone.
pub status_at-set_status :
    (buf : List NodeBuffer) (i j v : ℕ)
    → i < length buf
    → status_at (set_status buf i v) j ≡ (if i == j then v else status_at buf j)
status_at-set_status buf i j v lt = elim (Bool-cases (i == j)) [
  | inl same ↦ rw same (status_at-set_status_self buf i j v lt (ground arith))
  | inr other ↦ rw other (status_at-set_status_ne buf i j v lt (ground arith))
]

module _ {m : NodeRecvManager} (idle : IsIdle m) where
  open idle use {unlocked, size, free_index, busy_index}

  -- `get_free_node` never hangs. It gives out the first free slot at or after `next_free_index`
  -- in circular order; a null pointer means that all 256 slots are busy.
  pub get_free_node_runs :
      (r : Option ℕ) × (get_free_node m ≡ ret (take_free (record m { mutex = true }) r))
      × FindsFirst is_free m.buffer m.next_free_index 0 r
  unfolding get_free_node
  get_free_node_runs =
      let (r, runs, first) =
        search_lem is_free m.buffer m.next_free_index 255 0 m.next_free_index free_index refl
          (omega arith) in
      (r, rw (unlocked, runs), first)

  -- `get_buzy_node` never hangs. It takes back the first busy slot at or after `next_busy_index` in
  -- circular order; a null pointer means that all 256 slots are free.
  pub get_buzy_node_runs :
      (r : Option ℕ) × (get_buzy_node m ≡ ret (take_busy (record m { mutex = true }) r))
      × FindsFirst is_busy m.buffer m.next_busy_index 0 r
  unfolding get_buzy_node
  get_buzy_node_runs =
      let (r, runs, first) =
        search_lem is_busy m.buffer m.next_busy_index 255 0 m.next_busy_index busy_index refl
          (omega arith) in
      (r, rw (unlocked, runs), first)
