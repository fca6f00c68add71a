-- ===== src/CircleBuffer/Worker.antt =====
-- What a round of `fifo_worker` does to the FIFO, the cursor and the slots.
use dmmr_orbit.Base.{
  ℕ, ◌+◌, ◌-◌, ◌%◌, ◌<◌, ◌≡◌, refl, ap, ◌∙◌, arith, lt→ltb, List, [], ◌∷◌, ◌++◌, ret, length,
  length-set, length-append, length-take, take-append-drop, Run, fault, get_elem?, get_elem?-set_ne,
  set, take, drop, min,
}
use mathlib.Core.List.{append-nil, append_assoc}
use dmmr_orbit.Base.Sort.{All}
use dmmr_orbit.Node.{Node}
use dmmr_orbit.CircleBuffer.{
  slot, NodeFifoBuffer, CircleBuffer, store_at, drain_batch, fifo_worker_round, max_batch,
}
use dmmr_orbit.CircleBuffer.Cursor.{
  foward_current_node_lem, advance_lem, place_zero, place_suc, place_below,
}

-- The cursor is at slot `i`, which is not the last, and the array is whole.
pub record IsPlaced (c : CircleBuffer) (i : ℕ) : Type 0 where
  pub at : c.cursor ≡ slot i
  pub inner : i + 1 < c.circle_buffer_size
  pub size : length c.slots ≡ c.circle_buffer_size

-- The slots after the entries have been stored from slot `i` on.
abbrev pub stored : (ℕ → Node) → ℕ → List NodeFifoBuffer → ℕ → List Node → List Node
stored node_at n [] i slots = slots
stored node_at n (e ∷ es) i slots =
    stored node_at n es ((i + 1) % (n - 1)) (set slots i (node_at e.address_of_n))

-- The copies from these entries return these nodes.
abbrev pub HasCopies : (ℕ → Run Node) → (ℕ → Node) → List NodeFifoBuffer → Type 0
HasCopies copied node_at es = All (λ e. copied e.address_of_n ≡ ret (node_at e.address_of_n)) es

pub total-HasCopies :
    (node_at : ℕ → Node) (es : List NodeFifoBuffer) → HasCopies (λ a. ret (node_at a)) node_at es
total-HasCopies node_at [] = tt
total-HasCopies node_at (e ∷ es) = (refl, total-HasCopies node_at es)

pub drain_batch_lem :
    (copied : ℕ → Run Node) (node_at : ℕ → Node) (n : ℕ) (es : List NodeFifoBuffer) (i : ℕ)
    (slots : List Node)
    → HasCopies copied node_at es
    → i + 1 < n
    → length slots ≡ n
    → drain_batch copied n es (slot i) slots
      ≡ ret (slot ((i + length es) % (n - 1)), stored node_at n es i slots)
unfolding drain_batch store_at
drain_batch_lem copied node_at n [] i slots copies lt size = rw (place_zero n i lt)
drain_batch_lem copied node_at n (e ∷ es) i slots copies lt size =
    rw
      (
        drain_batch,
        copies.0,
        store_at,
        lt→ltb i (length slots) (omega arith),
        foward_current_node_lem n i lt,
      )
      (drain_batch_lem copied node_at n es ((i + 1) % (n - 1)) slots' copies.1 (place_below n i lt)
          (length-set slots i (node_at e.address_of_n) ∙ size)
        ∙ ap (λ k. ret (slot k, stored node_at n es ((i + 1) % (n - 1)) slots'))
            (place_suc n i (length es)))
  where
    slots' : List Node
    slots' = set slots i (node_at e.address_of_n)

length-stored :
    (node_at : ℕ → Node) (n : ℕ) (es : List NodeFifoBuffer) (i : ℕ) (slots : List Node)
    → length (stored node_at n es i slots) ≡ length slots
length-stored node_at n [] i slots = refl
length-stored node_at n (e ∷ es) i slots =
    length-stored node_at n es ((i + 1) % (n - 1)) (set slots i (node_at e.address_of_n))
    ∙ length-set slots i (node_at e.address_of_n)

-- The last slot of the array is never written.
pub stored-last :
    (node_at : ℕ → Node) (n : ℕ) (es : List NodeFifoBuffer) (i : ℕ) (slots : List Node)
    → i + 1 < n
    → get_elem? (stored node_at n es i slots) (n - 1) ≡ get_elem? slots (n - 1)
stored-last node_at n [] i slots lt = refl
stored-last node_at n (e ∷ es) i slots lt =
    stored-last node_at n es ((i + 1) % (n - 1)) (set slots i v) (place_below n i lt)
    ∙ get_elem?-set_ne slots {i = i} {j = n - 1} v (omega arith)
  where
    v : Node
    v = node_at e.address_of_n

abbrev pub room : CircleBuffer → ℕ
room c = max_batch - length c.batch

abbrev pub grown : CircleBuffer → List NodeFifoBuffer
grown c = c.batch ++ take (room c) c.fifo

-- The state that a round leaves.
abbrev pub after_round : (ℕ → Node) → ℕ → CircleBuffer → CircleBuffer
after_round node_at i c = record c {
  fifo = drop (room c) c.fifo;
  batch = grown c;
  cursor = slot ((i + length (grown c)) % (c.circle_buffer_size - 1));
  slots = stored node_at c.circle_buffer_size (grown c) i c.slots;
}

pub fifo_worker_round_runs :
    (copied : ℕ → Run Node) (node_at : ℕ → Node) {c : CircleBuffer} {i : ℕ}
    → HasCopies copied node_at (grown c)
    → IsPlaced c i
    → fifo_worker_round copied c ≡ ret (after_round node_at i c)
unfolding fifo_worker_round
fifo_worker_round_runs copied node_at {c} {i} copies placed = rw (
  placed.at,
  drain_batch_lem copied node_at c.circle_buffer_size (grown c) i c.slots copies placed.inner
      placed.size,
)

pub after_round-IsPlaced :
    (node_at : ℕ → Node) {c : CircleBuffer} {i : ℕ}
    → IsPlaced c i
    → IsPlaced (after_round node_at i c) ((i + length (grown c)) % (c.circle_buffer_size - 1))
after_round-IsPlaced node_at {c} {i} placed = record {
  at = refl;
  inner = (advance_lem c.circle_buffer_size (length (grown c)) i placed.inner).1;
  size = length-stored node_at c.circle_buffer_size (grown c) i c.slots ∙ placed.size;
}

-- A round from a placed cursor whose batch can be copied, every copy within the memory of its entry,
-- returns. It moves the oldest entries of the FIFO behind the batch, in order, as far as the batch has
-- room for 1024; it stores the whole batch, the entries of earlier rounds included, from the cursor on;
-- and the cursor moves by the size of that batch.
pub fifo_worker_round_lem :
    (copied : ℕ → Run Node) (node_at : ℕ → Node) {c : CircleBuffer} {i : ℕ}
    → HasCopies copied node_at (grown c)
    → IsPlaced c i
    → (c' : CircleBuffer) × (fifo_worker_round copied c ≡ ret c')
      × (c'.batch ++ c'.fifo ≡ c.batch ++ c.fifo)
      × (length c'.batch ≡ length c.batch + min (max_batch - length c.batch) (length c.fifo))
      × (c'.slots ≡ stored node_at c.circle_buffer_size c'.batch i c.slots)
      × IsPlaced c' ((i + length c'.batch) % (c.circle_buffer_size - 1))
fifo_worker_round_lem copied node_at {c} {i} copies placed = (
  after_round node_at i c,
  fifo_worker_round_runs copied node_at copies placed,
  append_assoc c.batch (take (room c) c.fifo) (drop (room c) c.fifo)
      ∙ ap (λ (l : List NodeFifoBuffer). c.batch ++ l) (take-append-drop (room c) c.fifo),
  omega (arith, length-append c.batch (take (room c) c.fifo), length-take (room c) c.fifo),
  refl,
  after_round-IsPlaced node_at placed,
)

-- A round that is to copy an entry first from outside the memory of that entry faults.
pub fifo_worker_round_overruns :
    (copied : ℕ → Run Node) (c : CircleBuffer) (e : NodeFifoBuffer) (es : List NodeFifoBuffer)
    → grown c ≡ e ∷ es
    → copied e.address_of_n ≡ fault
    → fifo_worker_round copied c ≡ fault
unfolding fifo_worker_round drain_batch
fifo_worker_round_overruns copied c e es batch out =
    rw (fifo_worker_round, batch, drain_batch, out) refl

-- With 1024 entries in the batch, a round takes no entry from the FIFO, however long it is, and the
-- batch stays as it is.
pub fifo_worker_starves :
    (copied : ℕ → Run Node) (node_at : ℕ → Node) {c : CircleBuffer} {i : ℕ}
    → HasCopies copied node_at (grown c)
    → IsPlaced c i
    → length c.batch ≡ max_batch
    → (c' : CircleBuffer) × (fifo_worker_round copied c ≡ ret c')
      × (c'.fifo ≡ c.fifo)
      × (c'.batch ≡ c.batch)
fifo_worker_starves copied node_at {c} {i} copies placed full = (
  after_round node_at i c,
  fifo_worker_round_runs copied node_at copies placed,
  rw none_left,
  rw none_left (append-nil c.batch),
)
  where
    none_left : room c ≡ 0
    none_left = omega arith
