-- ===== src/NodeRecv/Init.antt =====
-- src/node/node_recv_manager.c: what `init_node_recv_manager` leaves.
use dmmr_orbit.Base.{
  ℕ, zero, suc, ◌+◌, ◌%◌, ◌≡◌, refl, ◌∙◌, ap, arith, false, some, List, [], ◌∷◌, length,
}
use dmmr_orbit.Base.Int.{pos}
use dmmr_orbit.NodeRecv.{NodeBuffer, NodeRecvManager, status_at, clear_all, init_node_recv_manager}
use dmmr_orbit.NodeRecv.Fifo.{IsRing}

status_at-clear_all : (bs : List NodeBuffer) (i : ℕ) → status_at (clear_all bs) i ≡ 0
unfolding clear_all
status_at-clear_all [] i = refl
status_at-clear_all (b ∷ bs) zero = refl
status_at-clear_all (b ∷ bs) (suc i) = status_at-clear_all bs i

length-clear_all : (bs : List NodeBuffer) → length (clear_all bs) ≡ length bs
unfolding clear_all
length-clear_all [] = refl
length-clear_all (b ∷ bs) = ap suc (length-clear_all bs)

-- Whatever was in its memory, a manager of 256 slots that is initialised is an empty ring.
pub init-IsRing :
    (input : NodeRecvManager)
    → length input.buffer ≡ 256
    → (m : NodeRecvManager) × (init_node_recv_manager (some input) ≡ (pos 0, some m)) × IsRing m 0
unfolding init_node_recv_manager
init-IsRing input size = (
  record {
    next_free_index = 0;
    next_busy_index = 0;
    mutex = false;
    buffer = clear_all input.buffer;
  },
  refl,
  record {
    idle = record {
      unlocked = refl;
      size = length-clear_all input.buffer ∙ size;
      free_index = omega arith;
      busy_index = omega arith;
    };
    few = omega arith;
    free_end = refl;
    used = λ i below. absurd (omega arith);
    unused = λ i from below. rw (status_at-clear_all input.buffer ((0 + i) % 256)) refl;
  },
)
