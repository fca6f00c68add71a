-- ===== src/NodeRecv/Tests.antt =====
-- A fresh manager, and calls on it.
use dmmr_orbit.Base.{
  ℕ, zero, suc, ◌+◌, ◌%◌, ◌≡◌, refl, arith, false, none, some, [], ◌∷◌, ret, replicate,
}
use dmmr_orbit.Node.Tests.{blank_node}
use dmmr_orbit.NodeRecv.{NodeBuffer, NodeRecvManager, status_at}
use dmmr_orbit.NodeRecv.Slots.{IsIdle}
use dmmr_orbit.NodeRecv.Fifo.{IsRing, put, take, run_manager, run_queue, slots_from, run_refines}

abbrev pub free_slot : NodeBuffer
free_slot = record { node_buffer_status = 0; node = blank_node }

abbrev pub fresh : NodeRecvManager
fresh = record {
  next_free_index = 0;
  next_busy_index = 0;
  mutex = false;
  buffer = replicate 256 free_slot;
}

all_free : (n i : ℕ) → status_at (replicate n free_slot) i ≡ 0
all_free zero i = refl
all_free (suc n) zero = refl
all_free (suc n) (suc i) = all_free n i

fresh-IsIdle : IsIdle fresh
fresh-IsIdle = record {
  unlocked = refl;
  size = refl;
  free_index = omega arith;
  busy_index = omega arith;
}

pub fresh-IsRing : IsRing fresh 0
fresh-IsRing = record {
  idle = fresh-IsIdle;
  few = omega arith;
  free_end = refl;
  used = λ i below. absurd (omega arith);
  unused = λ i from below. rw (all_free 256 ((0 + i) % 256)) refl;
}

run_refines_example :
    run_manager fresh (put ∷ put ∷ take ∷ take ∷ take ∷ [])
    ≡ ret (run_queue 0 (slots_from 0 0) (put ∷ put ∷ take ∷ take ∷ take ∷ []))
run_refines_example = run_refines (put ∷ put ∷ take ∷ take ∷ take ∷ []) 0 fresh-IsRing

queue_run :
    run_queue 0 [] (put ∷ put ∷ take ∷ take ∷ take ∷ [])
    ≡ some 0 ∷ some 1 ∷ some 0 ∷ some 1 ∷ none ∷ []
unfolding run_queue
queue_run = refl
