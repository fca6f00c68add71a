-- ===== src/Protocol/Maps.antt =====
-- src/include/maps: copies of a node into a node, and into the configuration of an endpoint.
use dmmr_orbit.Base.{
  ℕ, ◌-◌, ◌^◌, ◌≡◌, refl, ap, ltb, if◌then◌else◌, Option, none, some, List, [], ◌∷◌,
}
use dmmr_orbit.Base.Int.{ℤ, pos, negsuc}
use dmmr_orbit.Node.{Node}
use dmmr_orbit.Protocol.{Endpoint, proto_none, proto_udp, proto_tcp}

-- Every member of the source is assigned or copied whole.
unfoldable pub map_node_to_node : Option Node → Option Node → Option Node
map_node_to_node none src = none
map_node_to_node (some dst) none = some dst
map_node_to_node (some dst) (some src) = some (record dst {
  arrival = src.arrival;
  deadline = src.deadline;
  ipv4 = src.ipv4;
  ipv6 = src.ipv6;
  fd = src.fd;
  family = src.family;
  port = src.port;
  value_size = src.value_size;
  flags = src.flags;
  value = src.value;
})

-- `src` comes with its address.
unfoldable pub map_node_to_tcp_node : Option Endpoint → Option (ℕ × Node) → Option Endpoint
map_node_to_tcp_node none src = none
map_node_to_tcp_node (some tcp) none = some tcp
map_node_to_tcp_node (some tcp) (some (address, src)) = some (record tcp {
  node = some address;
  node_cfg = record (tcp.node_cfg) {
    ipv4 = src.ipv4;
    ipv6 = src.ipv6;
    port = src.port;
    family = src.family;
    fd = src.fd;
    arrival = src.arrival;
    deadline = src.deadline;
    value_size = src.value_size;
    flags = src.flags;
    value = src.value;
  };
})

unfoldable pub map_node_to_udp_node : Option Endpoint → Option (ℕ × Node) → Option Endpoint
map_node_to_udp_node none src = none
map_node_to_udp_node (some udp) none = some udp
map_node_to_udp_node (some udp) (some (address, src)) = some (record udp {
  node = some address;
  node_cfg = record (udp.node_cfg) {
    ipv4 = src.ipv4;
    ipv6 = src.ipv6;
    port = src.port;
    family = src.family;
    fd = src.fd;
    arrival = src.arrival;
    deadline = src.deadline;
    value_size = src.value_size;
    flags = src.flags;
    value = src.value;
  };
})

-- `map_common_fields` of map_to_protocol_node.h.
unfoldable pub map_common_fields : Option Node → Option Node → Option Node
map_common_fields none dst = dst
map_common_fields (some src) none = none
map_common_fields (some src) (some dst) = some (record dst {
  arrival = src.arrival;
  deadline = src.deadline;
  fd = src.fd;
  family = src.family;
  port = src.port;
  value_size = src.value_size;
  flags = src.flags;
  ipv4 = src.ipv4;
  ipv6 = src.ipv6;
  value = src.value;
})

abbrev pub set_cfg : Endpoint → ℕ → Option Node → Endpoint
set_cfg u address none = record u { node = some address }
set_cfg u address (some cfg) = record u { node_cfg = cfg; node = some address }

unfoldable pub map_to_tcp_node : Option (ℕ × Node) → Option Endpoint → Option Endpoint
unfolding map_common_fields
map_to_tcp_node none dst = dst
map_to_tcp_node (some src) none = none
map_to_tcp_node (some (address, src)) (some dst) =
    some (set_cfg dst address (map_common_fields (some src) (some dst.node_cfg)))

unfoldable pub map_to_udp_node : Option (ℕ × Node) → Option Endpoint → Option Endpoint
unfolding map_common_fields
map_to_udp_node none dst = dst
map_to_udp_node (some src) none = none
map_to_udp_node (some (address, src)) (some dst) =
    some (set_cfg dst address (map_common_fields (some src) (some dst.node_cfg)))

unfoldable pub map_to_protocol_node : Option (ℕ × Node) → Option Endpoint → Option Endpoint
unfolding map_to_tcp_node map_to_udp_node
map_to_protocol_node none dst = dst
map_to_protocol_node (some src) none = none
map_to_protocol_node (some src) (some dst) = elim dst.proto [
  | proto_tcp ↦ map_to_tcp_node (some src) (some dst)
  | proto_udp ↦ map_to_udp_node (some src) (some dst)
  | proto_none ↦ some dst
]

-- For an endpoint of either protocol the two families of copies do the same: the endpoint points to
-- the source and its configuration becomes the source node, every member included.
pub maps_agree :
    (dst : Endpoint) (address : ℕ) (src : Node)
    → (map_to_tcp_node (some (address, src)) (some dst)
        ≡ some (record dst { node = some address; node_cfg = src }))
      × (map_node_to_tcp_node (some dst) (some (address, src))
          ≡ some (record dst { node = some address; node_cfg = src }))
      × (map_to_udp_node (some (address, src)) (some dst)
          ≡ some (record dst { node = some address; node_cfg = src }))
      × (map_node_to_udp_node (some dst) (some (address, src))
          ≡ some (record dst { node = some address; node_cfg = src }))
unfolding map_to_tcp_node map_node_to_tcp_node map_to_udp_node map_node_to_udp_node
maps_agree dst address src = (refl, refl, refl, refl)

-- `(int)` of a `uint32_t`.
abbrev signed32 : ℕ → ℤ
signed32 w = if ltb w (2 ^ 31) then pos w else negsuc (2 ^ 32 - w - 1)

-- `struct node_field_arr`: the tag and the member of the union that goes with it.
pub data NodeFieldArr : Type 0 where
  node_arrival node_deadline node_value_size node_family node_port node_flags : ℕ → NodeFieldArr
  node_fd : ℕ → NodeFieldArr
  node_ipv6 node_ipv4 node_value : List ℕ → NodeFieldArr

-- The `switch` of `pop_struct_node`, on one element of the array.
unfoldable pub pop_field : Node → NodeFieldArr → Node
pop_field dst (node_arrival v) = record dst { arrival = v }
pop_field dst (node_deadline v) = record dst { deadline = v }
pop_field dst (node_value_size v) = record dst { value_size = v }
pop_field dst (node_family v) = record dst { family = v }
pop_field dst (node_port v) = record dst { port = v }
pop_field dst (node_flags v) = record dst { flags = v }
pop_field dst (node_fd v) = record dst { fd = signed32 v }
pop_field dst (node_ipv6 v) = record dst { ipv6 = v }
pop_field dst (node_ipv4 v) = record dst { ipv4 = v }
pop_field dst (node_value v) = record dst { value = v }

-- The loop steps `a` through the array, and reads `arr`, its first element, in every round.
pop_rounds : Node → NodeFieldArr → List NodeFieldArr → Node
pop_rounds dst arr [] = dst
pop_rounds dst arr (a ∷ as') = pop_rounds (pop_field dst arr) arr as'

unfoldable pub pop_struct_node : Option Node → List NodeFieldArr → Option Node
unfolding pop_rounds
pop_struct_node none fields = none
pop_struct_node (some dst) [] = some dst
pop_struct_node (some dst) (arr ∷ rest) = some (pop_rounds dst arr (arr ∷ rest))

pop_field-again :
    (dst : Node) (arr : NodeFieldArr) → pop_field (pop_field dst arr) arr ≡ pop_field dst arr
unfolding pop_field
pop_field-again dst (node_arrival v) = refl
pop_field-again dst _ = refl

pop_rounds-again :
    (dst : Node) (arr : NodeFieldArr) (as' : List NodeFieldArr)
    → pop_rounds (pop_field dst arr) arr as' ≡ pop_field dst arr
unfolding pop_rounds
pop_rounds-again dst arr [] = refl
pop_rounds-again dst arr (a ∷ as') = rw (pop_field-again dst arr) (pop_rounds-again dst arr as')

-- Whatever fields follow, `pop_struct_node` sets the first one alone.
pub pop_struct_node_first :
    (dst : Node) (arr : NodeFieldArr) (rest : List NodeFieldArr)
    → pop_struct_node (some dst) (arr ∷ rest) ≡ some (pop_field dst arr)
unfolding pop_struct_node
pop_struct_node_first dst arr rest = ap some (pop_rounds-again dst arr rest)
