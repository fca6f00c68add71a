-- ===== src/Protocol.antt =====
-- `union protocol_base_cb` and its accessors (src/include/structs.h, enums.h, funcs.h).
-- `tcp_node` and `udp_node` are one record, told apart by `proto`; `parent` is used by TCP alone. A
-- pointer is an address, a null pointer `none`. A callback is known by its address.
pub mod Maps
pub mod Tests
use dmmr_orbit.Base.{
  ℕ, zero, suc, ◌+◌, ◌%◌, ◌^◌, Option, none, some, Run, ret, fault, ◌>>=◌, ◌==◌, if◌then◌else◌,
}
use dmmr_orbit.Node.{Node}
use dmmr_orbit.NodeRecv.{NodeRecvManager}

pub data Proto : Type 0 where
  proto_none proto_udp proto_tcp : Proto

-- `proto_arr_t`: the index of a session in its record.
abbrev pub proto_arr_udp : ℕ
proto_arr_udp = 0

abbrev pub proto_arr_tcp : ℕ
proto_arr_tcp = 1

-- `struct tcp_node`, `struct udp_node`.
pub record Endpoint : Type 0 where
  pub proto : Proto
  pub run : ℕ
  pub node_count : ℕ
  pub node : Option ℕ
  pub node_cfg : Node
  pub parent : Option ℕ
  pub linked : Option ℕ
  pub recv_manager : NodeRecvManager
  pub on_accept_cb : Option ℕ
  pub on_connect_cb : Option ℕ
  pub on_receive_cb : Option ℕ
  pub on_close_cb : Option ℕ

-- What the pointers point to: the nodes, addressed by their place in an array, and the unions.
pub record Heap : Type 0 where
  pub nodes : ℕ → Node
  pub endpoints : ℕ → Endpoint

-- With a null pointer the function runs off its end with no value.
unfoldable pub get_session_pointer : Option Endpoint → Run (Option ℕ)
get_session_pointer none = fault
get_session_pointer (some u) = elim u.proto [
  | proto_none ↦ ret none
  | proto_tcp ↦ ret u.linked
  | proto_udp ↦ ret u.linked
]

unfoldable pub get_session_node : Endpoint → Option ℕ
get_session_node u = elim u.proto [ proto_udp ↦ u.node | proto_tcp ↦ u.node | proto_none ↦ none ]

-- `n->value_size` summed over `count` nodes from `n` on, in an unsigned int.
unfoldable pub sum_sizes : Heap → ℕ → ℕ → ℕ → ℕ
sum_sizes h n zero s = s
sum_sizes h n (suc count) s = sum_sizes h (n + 1) count ((s + (h.nodes n).value_size) % 2 ^ 32)

-- One branch of `update_session_counter`; a null array can only be walked for no element.
abbrev pub count_nodes : Heap → Endpoint → Run Endpoint
count_nodes h u = elim u.node [
  | none ↦ if u.node_count == 0 then ret u else fault
  | some n ↦ ret (record u { node_count = sum_sizes h n u.node_count 0 })
]

unfoldable pub update_session_counter : Heap → Endpoint → Run Endpoint
unfolding sum_sizes
update_session_counter h u = elim u.proto [
  | proto_udp ↦ count_nodes h u
  | proto_tcp ↦ count_nodes h u
  | proto_none ↦ ret u
]

-- The port that a node pointer leads to.
abbrev pub port_of : Heap → Option ℕ → Run ℕ
port_of h p = elim p [ none ↦ fault | some n ↦ ret (h.nodes n).port ]

-- `*__p0` and `*__p1`, from what they held before.
unfoldable pub get_session_cfg : Heap → Endpoint → ℕ → ℕ → Run (ℕ × ℕ)
get_session_cfg h u port arr = elim u.proto [
  | proto_none ↦ ret (port, arr)
  | proto_tcp ↦ port_of h u.node >>= λ p. ret (p, proto_arr_tcp)
  | proto_udp ↦ port_of h u.node >>= λ p. ret (p, proto_arr_udp)
]

-- The port of the node that a session holds; 0 without a node.
abbrev pub own_port : Heap → Endpoint → ℕ
own_port h u = elim u.node [ none ↦ 0 | some n ↦ (h.nodes n).port ]

abbrev pub linked_port : Heap → Endpoint → ℕ
linked_port h u = elim u.linked [ none ↦ 0 | some l ↦ own_port h (h.endpoints l) ]

-- `p->port` and `p->linked_port` as `link_session_ports` leaves them.
unfoldable pub link_session_ports : Heap → Endpoint → ℕ × ℕ
link_session_ports h cb = elim cb.proto [
  | proto_tcp ↦ (own_port h cb, linked_port h cb)
  | proto_udp ↦ (own_port h cb, linked_port h cb)
  | proto_none ↦ (0, 0)
]
