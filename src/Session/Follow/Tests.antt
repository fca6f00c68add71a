-- ===== src/Session/Follow/Tests.antt =====
-- A ring of four slots, the buffer's cursor at the third, and a session directly behind it.
use dmmr_orbit.Base.{
  if◌then◌else◌, ltb, Run, fault, ℕ, ◌≡◌, ◌≢◌, ◌⊎◌, refl, arith, true, false, none, some, List, [],
  ◌∷◌, ◌++◌, map, ret, ◌+◌, ◌%◌, ◌-◌, ◌<◌,
}
use dmmr_orbit.Node.{Node}
use dmmr_orbit.Node.Tests.{blank_node, test_node}
use dmmr_orbit.Protocol.Tests.{test_heap}
use dmmr_orbit.CircleBuffer.{slot, NodeFifoBuffer, CircleBuffer}
use dmmr_orbit.CircleBuffer.Worker.{IsPlaced}
use dmmr_orbit.Session.{SessionConnectionPool}
use dmmr_orbit.Session.Tests.{test_session, in_use}
use dmmr_orbit.Session.Follow.{Layout, session_move}
use dmmr_orbit.Session.Follow.Move.{session_move_lem}
use dmmr_orbit.Session.Follow.Lag.{lockstep, nodes_from, lockstep_lem}
use dmmr_orbit.Session.Follow.Steps.{Follower, Reach, begin, next, queued, moved, IsTracked}

abbrev layout : Layout
layout = record { base = 4096; stride = 1600; head_at = 64 }

abbrev entry : ℕ → NodeFifoBuffer
entry a = record { address_of_n = a; n = a }

abbrev memory : ℕ → Node
memory a = test_node a a a

-- The array of the entries ends behind 1000.
abbrev copied : ℕ → Run Node
copied a = if ltb a 1000 then ret (memory a) else fault

abbrev old_slots : List Node
old_slots = test_node 1 0 0 ∷ test_node 2 0 0 ∷ test_node 3 0 0 ∷ blank_node ∷ []

abbrev buffer : CircleBuffer
buffer = record {
  circle_buffer_size = 4;
  cursor = slot 2;
  slots = old_slots;
  fifo = [];
  batch = [];
  run = true;
}

abbrev follower : SessionConnectionPool
follower = record (test_session 8080) { cursor = some (slot 1) }

buffer-IsPlaced : IsPlaced buffer 2
buffer-IsPlaced = record { at = refl; inner = omega arith; size = refl }

session_move_example :
    (◌≡◌ {A = ℕ} 1 2 × (session_move layout buffer follower ≡ ret none))
    ⊎ (◌≢◌ {A = ℕ} 1 2
        × (session_move layout buffer follower
            ≡ ret (some (record follower { cursor = some (slot ((1 + 1) % (4 - 1))) })))
        × ((1 + 1) % (4 - 1) + 1 < 4))
session_move_example =
    session_move_lem layout buffer follower 2 1 (omega arith) buffer-IsPlaced refl (omega arith)

lockstep_example :
    (seen : List Node) × (lockstep layout copied buffer follower (entry 7 ∷ entry 8 ∷ entry 9 ∷ [])
      ≡ ret seen)
    × (map some seen ≡ nodes_from 4 old_slots 2 3)
lockstep_example =
    lockstep_lem layout copied memory buffer follower 2 1 (entry 7 ∷ entry 8 ∷ entry 9 ∷ [])
      (omega arith) (omega arith) buffer-IsPlaced refl (omega arith) refl (omega arith)
      (refl, (refl, (refl, tt)))

old_nodes :
    nodes_from 4 old_slots 2 3
    ≡ some (test_node 3 0 0) ∷ some (test_node 1 0 0) ∷ some (test_node 2 0 0) ∷ []
unfolding nodes_from
old_nodes = refl

abbrev waiting : Follower
waiting = record { conn = follower; buffer = buffer; in_wait = true }

abbrev on_writer : SessionConnectionPool
on_writer = record follower { cursor = some (slot 2) }

abbrev ready : Follower
ready = record { conn = on_writer; buffer = record buffer { fifo = entry 7 ∷ [] }; in_wait = false }

waiting-IsTracked : IsTracked waiting
waiting-IsTracked = record {
  writer = 2;
  reader = 1;
  placed = buffer-IsPlaced;
  at = refl;
  inner = omega arith;
  fit = (in_use ++ (blank_node ∷ blank_node ∷ []), refl, refl, omega arith, omega arith);
}

ready-Reach : Reach layout test_heap waiting ready
unfolding session_move
ready-Reach =
    next (next {t = waiting} begin (moved {s = waiting} {conn = on_writer} refl refl))
      (queued {s = record waiting { conn = on_writer; in_wait = false }} (entry 7 ∷ []))
