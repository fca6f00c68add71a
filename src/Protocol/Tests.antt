-- ===== src/Protocol/Tests.antt =====
-- An endpoint, and the copies run on it.
use dmmr_orbit.Base.{false, none, some, []}
use dmmr_orbit.Node.Tests.{blank_node, test_node}
use dmmr_orbit.Protocol.{Endpoint, Heap, proto_tcp}

-- A TCP endpoint whose node is at address 3, linked to the one at address 7.
abbrev pub tcp_endpoint : Endpoint
tcp_endpoint = record {
  proto = proto_tcp;
  run = 1;
  node_count = 1;
  node = some 3;
  node_cfg = blank_node;
  parent = none;
  linked = some 7;
  recv_manager = record { next_free_index = 0; next_busy_index = 0; mutex = false; buffer = [] };
  on_accept_cb = none;
  on_connect_cb = none;
  on_receive_cb = none;
  on_close_cb = none;
}

abbrev pub test_heap : Heap
test_heap = record { nodes = λ n. test_node 1 2 3; endpoints = λ n. tcp_endpoint }
