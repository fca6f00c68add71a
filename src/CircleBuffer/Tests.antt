-- ===== src/CircleBuffer/Tests.antt =====
-- A ring of four slots with a FIFO of two entries, and the cursor on it.
use dmmr_orbit.Base.{
  if◌then◌else◌, ltb, Run, fault, ℕ, ◌+◌, ◌-◌, ◌%◌, ◌≡◌, min, refl, arith, true, List, [], ◌∷◌,
  ◌++◌, ret, length, replicate,
}
use dmmr_orbit.Node.{Node}
use dmmr_orbit.Node.Tests.{blank_node, test_node}
use dmmr_orbit.CircleBuffer.{slot, NodeFifoBuffer, CircleBuffer, fifo_worker_round, max_batch}
use dmmr_orbit.CircleBuffer.Worker.{IsPlaced, stored, fifo_worker_round_lem}

abbrev entry : ℕ → NodeFifoBuffer
entry a = record { address_of_n = a; n = a + 8 }

abbrev memory : ℕ → Node
memory a = test_node a a a

-- The array of the entries ends behind 1000.
abbrev copied : ℕ → Run Node
copied a = if ltb a 1000 then ret (memory a) else fault

abbrev ring : List NodeFifoBuffer → CircleBuffer
ring batch = record {
  circle_buffer_size = 4;
  cursor = slot 2;
  slots = replicate 4 blank_node;
  fifo = entry 100 ∷ entry 200 ∷ [];
  batch = batch;
  run = true;
}

ring-IsPlaced : (batch : List NodeFifoBuffer) → IsPlaced (ring batch) 2
ring-IsPlaced batch = record { at = refl; inner = omega arith; size = refl }

fifo_worker_round_example :
    (c' : CircleBuffer) × (fifo_worker_round copied (ring []) ≡ ret c')
    × (c'.batch ++ c'.fifo ≡ entry 100 ∷ entry 200 ∷ [])
    × (length c'.batch ≡ 0 + min (max_batch - 0) 2)
    × (c'.slots ≡ stored memory 4 c'.batch 2 (replicate 4 blank_node))
    × IsPlaced c' ((2 + length c'.batch) % 3)
fifo_worker_round_example =
    fifo_worker_round_lem copied memory (refl, (refl, tt)) (ring-IsPlaced [])

abbrev cursor_slot : ℕ
cursor_slot = 3

abbrev worker_slot : ℕ
worker_slot = 1
