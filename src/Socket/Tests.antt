-- ===== src/Socket/Tests.antt =====
-- Calls of a start, pools with room, a receive manager, and a host with an address.
use dmmr_orbit.Base.{◌≡◌, refl, arith, true, false, none, some, List, [], ◌∷◌, ret, ◌>>=◌, take}
use dmmr_orbit.Node.Tests.{test_node, blank_node}
use dmmr_orbit.NodeRecv.Tests.{fresh}
use dmmr_orbit.Protocol.{Endpoint, proto_none, proto_tcp}
use dmmr_orbit.Protocol.Tests.{tcp_endpoint}
use dmmr_orbit.Socket.{get_struct_node_buffer, Pool, find_free, get_union_protocol_base_cb, again}
use dmmr_orbit.Socket.Tcp.{Calls}
use dmmr_orbit.Socket.Dispatch.{dispatcher}
use dmmr_orbit.Socket.Dispatch.Send.{expected, dispatcher_lem}
use dmmr_orbit.Socket.Accept.{AcceptCalls, TcpPools}
use dmmr_orbit.Socket.Receive.{Fifo, Origin, on_receive_connection_cb}
use dmmr_orbit.Socket.Receive.Callback.{without_node, on_receive_connection_cb_lem}
use dmmr_orbit.Socket.Service.{AddrInfo, dns2ipaddr, first_address, Callbacks, UdpCalls}

abbrev no_bind : Calls
no_bind = record {
  socket_fd = some 4;
  fcntl_ok = true;
  setsockopt_ok = true;
  bind_ok = false;
  listen_ok = true;
  spawn_ok = true;
}

dispatcher_example :
    dispatcher (some tcp_endpoint) (some (test_node 1 2 3 ∷ blank_node ∷ [])) 2 again
    ≡ ret (expected proto_tcp (test_node 1 2 3) (take 2 (test_node 1 2 3 ∷ blank_node ∷ [])) again)
dispatcher_example =
    dispatcher_lem tcp_endpoint (test_node 1 2 3) (blank_node ∷ []) 2 again (omega arith)
      (omega arith)

-- A client that the pools have room for.
abbrev client : AcceptCalls
client = record {
  ready = true;
  client_fd = some 9;
  port = 4000;
  address = 127 ∷ 0 ∷ 0 ∷ 1 ∷ [];
  fresh_nodes = none;
  fresh_endpoints = none;
  spawn_ok = true;
}

abbrev room : TcpPools
room = record {
  node_pool = record { slots = test_node 1 2 3 ∷ blank_node ∷ []; size = 2; count = 0 };
  tcp_pool = record { slots = record tcp_endpoint { run = 0 } ∷ []; size = 1; count = 0 };
}

-- A FIFO whose pool has one entry, with a node that is free.
abbrev one_entry : Fifo
one_entry = record {
  entries = [];
  nbuff = record { slots = some blank_node ∷ []; size = 1; count = 0 };
}

on_receive_connection_cb_example :
    on_receive_connection_cb 3 none one_entry (some fresh)
    ≡ (get_struct_node_buffer none one_entry.nbuff >>= without_node one_entry fresh)
on_receive_connection_cb_example = on_receive_connection_cb_lem 2 none one_entry fresh refl

abbrev origin : Origin
origin = record { port = 5000; address = 10 ∷ 0 ∷ 0 ∷ 2 ∷ []; monotonic = some 70; realtime = none }

-- One free endpoint, a host with an IPv4 address, and a bind that is refused.
abbrev one_free : Pool Endpoint
one_free = record {
  slots = tcp_endpoint ∷ record tcp_endpoint { proto = proto_none } ∷ [];
  size = 2;
  count = 0;
}

abbrev host : List AddrInfo
host = record { ai_family = 2; ai_addr = 2 ∷ 0 ∷ 0 ∷ 0 ∷ 127 ∷ 0 ∷ 0 ∷ 1 ∷ [] } ∷ []

abbrev refused : UdpCalls
refused = record { socket_fd = some 6; bind_ok = false; spawned = 0 }

abbrev no_callbacks : Callbacks
no_callbacks = record { on_accept = none; on_connect = none; on_receive = none; on_close = none }

second_free : get_union_protocol_base_cb none one_free ≡ (some 1, one_free)
unfolding get_union_protocol_base_cb find_free
second_free = refl

resolved : dns2ipaddr (some host) ≡ (2, 2 ∷ 0 ∷ 0 ∷ 0 ∷ 127 ∷ 0 ∷ 0 ∷ 1 ∷ [])
unfolding first_address
resolved = refl
