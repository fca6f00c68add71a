-- ===== src/Session/Tests.antt =====
-- A session of a TCP endpoint, and its operations on a few nodes.
use dmmr_orbit.Base.{
  ◌-◌, drop, ℕ, ◌≤◌, ◌<◌, ◌≡◌, ◌⊎◌, refl, arith, true, none, some, List, [], ◌∷◌, ◌++◌, ret, length,
  take, replicate,
}
use dmmr_orbit.Base.Int.{pos}
use dmmr_orbit.Base.Sort.{IsSortedBy, with_key}
use dmmr_orbit.Node.{Node, value_output_buffer_size}
use dmmr_orbit.Node.Tests.{blank_node, test_node}
use dmmr_orbit.Protocol.Tests.{tcp_endpoint, test_heap}
use dmmr_orbit.Session.{
  SessionConnectionPool, sort_pool_by_arrival_inline, burst, Recno, recno_size,
}
use dmmr_orbit.Session.Sort.{arrival_of, sort_pool-stable}
use dmmr_orbit.Session.Size.{total_size}
use dmmr_orbit.Bytes.Compare.{vcmp}
use dmmr_orbit.Node.Cmp.{node_cmp, address_cmp}
use dmmr_orbit.Protocol.{
  Endpoint, get_session_node, get_session_pointer, update_session_counter, sum_sizes,
}
use dmmr_orbit.Session.{send_burst, process_session_node, own_node}
use dmmr_orbit.Session.Process.{send_burst_lem, process_session_node_lem, with_nodes}

abbrev pub test_session : ℕ → SessionConnectionPool
test_session port = record {
  run = 1;
  port = port;
  linked_port = 0;
  pool_size = 4;
  pool_count = 2;
  pool = some (test_node 5 9 10 ∷ test_node 6 9 10 ∷ blank_node ∷ blank_node ∷ []);
  cursor = none;
  session = tcp_endpoint;
}

abbrev late_first : List Node
late_first = test_node 7 0 900 ∷ test_node 4 0 800 ∷ test_node 4 1 700 ∷ []

sort_pool-stable_example :
    (sorted : List Node) × (sort_pool_by_arrival_inline
        (late_first ++ (blank_node ∷ []))
        (length late_first)
      ≡ sorted ++ (blank_node ∷ []))
    × IsSortedBy arrival_of sorted
    × ((t : ℕ) → with_key arrival_of t sorted ≡ with_key arrival_of t late_first)
sort_pool-stable_example = sort_pool-stable late_first (blank_node ∷ [])

abbrev no_pools : SessionConnectionPool × SessionConnectionPool
no_pools = (test_session 0, test_session 0)

abbrev empty_table : Recno
empty_table = replicate recno_size no_pools

abbrev pub in_use : List Node
in_use = test_node 5 9 10 ∷ test_node 6 9 10 ∷ []

abbrev pub counted_endpoint : Endpoint
counted_endpoint = record tcp_endpoint { node_count = 3 }

pub linked : get_session_pointer (some tcp_endpoint) ≡ ret (some 7)
unfolding get_session_pointer
linked = refl

pub counted : update_session_counter test_heap tcp_endpoint ≡ ret counted_endpoint
unfolding update_session_counter sum_sizes
counted = refl

send_burst_example :
    (left : List Node) × (rest : List Node) × (send_burst test_heap true
        (test_session 8080)
        (in_use ++ (blank_node ∷ blank_node ∷ []))
      ≡ ret (
        record (test_session 8080) {
          pool_count = 2 - burst 0 0 in_use;
          session = counted_endpoint;
          pool = some (left ++ rest);
        },
        record { target = some 7; nodes = take (burst 0 0 in_use) in_use } ∷ [],
      ))
    × IsSortedBy arrival_of left
    × ((t : ℕ)
        → with_key arrival_of t left ≡ with_key arrival_of t (drop (burst 0 0 in_use) in_use))
send_burst_example =
    send_burst_lem test_heap (test_session 8080) in_use (blank_node ∷ blank_node ∷ []) (some 7)
      counted_endpoint refl linked counted

same_endpoint : node_cmp (some (test_node 7 9 10)) (own_node test_heap tcp_endpoint) ≡ pos 0
unfolding node_cmp address_cmp vcmp get_session_node
same_endpoint = refl

process_session_node_example :
    ((total_size (in_use ++ (test_node 7 9 10 ∷ [])) < value_output_buffer_size)
      × (process_session_node test_heap true (test_node 7 9 10) (test_session 8080)
          ≡ ret (with_nodes (test_session 8080) in_use (test_node 7 9 10) (blank_node ∷ []), [])))
    ⊎ ((value_output_buffer_size ≤ total_size (in_use ++ (test_node 7 9 10 ∷ [])))
        × (process_session_node test_heap true (test_node 7 9 10) (test_session 8080)
            ≡ send_burst test_heap true
                (with_nodes (test_session 8080) in_use (test_node 7 9 10) (blank_node ∷ []))
                ((in_use ++ (test_node 7 9 10 ∷ [])) ++ (blank_node ∷ []))))
process_session_node_example =
    process_session_node_lem test_heap (test_node 7 9 10) (test_session 8080) in_use blank_node
      (blank_node ∷ []) same_endpoint refl refl (omega arith) (omega arith)
      (omega arith, (omega arith, (omega arith, tt)))
