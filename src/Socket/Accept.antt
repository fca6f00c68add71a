-- ===== src/Socket/Accept.antt =====
-- The thread of src/socket/socket_tcp.c that accepts clients, the start of its pools, and the pool of
-- socket_udp.c.
-- A round is given what the system's calls return, and the realloc of each pool.
pub mod Client
use dmmr_orbit.Base.{
  ℕ, zero, suc, ◌+◌, ◌%◌, ◌^◌, ◌==◌, if◌then◌else◌, ◌&&◌, not, Bool, true, false, Option, none,
  some, List, [], ◌∷◌, ◌++◌, map, Run, ret, fault, get_elem?, set, replicate,
}
use dmmr_orbit.Base.Int.{ℤ, pos, eof}
use dmmr_orbit.Node.{Node, af_inet}
use dmmr_orbit.NodeRecv.{NodeRecvManager, init_node_recv_manager}
use dmmr_orbit.Protocol.{Endpoint}
use dmmr_orbit.Socket.{Pool, get_node, get_tcp_node, delete_node}
use dmmr_orbit.Parser.{over}

pub record TcpPools : Type 0 where
  pub node_pool : Pool Node
  pub tcp_pool : Pool Endpoint

-- `ready` is false when `select` ends without a client.
pub record AcceptCalls : Type 0 where
  pub ready : Bool
  pub client_fd : Option ℕ
  pub port : ℕ
  pub address : List ℕ
  pub fresh_nodes : Option (List Node)
  pub fresh_endpoints : Option (List Endpoint)
  pub spawn_ok : Bool

pub data AcceptEffect : Type 0 where
  close_client : ℕ → AcceptEffect
  run_receiver : ℕ → AcceptEffect
  on_accept : ℕ → AcceptEffect

-- What is written into the client's node.
abbrev pub client_node : AcceptCalls → ℕ → ℕ → Node → Node
client_node c fd family n =
    let v4 = family == af_inet in
    record n {
      fd = pos fd;
      family = family;
      port = c.port;
      ipv4 = if v4 then over c.address n.ipv4 else n.ipv4;
      ipv6 = if v4 then n.ipv6 else over c.address n.ipv6;
    }

abbrev pub initialised : NodeRecvManager → NodeRecvManager
initialised m = elim (init_node_recv_manager (some m)).1 [ none ↦ m | some m' ↦ m' ]

-- What is written into the client's endpoint.
abbrev pub client_endpoint : ℕ → Endpoint → ℕ → Endpoint → Endpoint
client_endpoint at node i t = record t {
  parent = some at;
  node = some i;
  node_count = (t.node_count + 1) % 2 ^ 32;
  run = 1;
  recv_manager = initialised t.recv_manager;
  on_receive_cb = node.on_receive_cb;
}

abbrev pub after_spawn : Bool → Option ℕ → ℕ → List AcceptEffect
after_spawn true (some cb) j = run_receiver j ∷ on_accept j ∷ []
after_spawn true none j = run_receiver j ∷ []
after_spawn false cb j = []

abbrev pub Accepted : Type 0
Accepted = Run (List AcceptEffect × TcpPools)

-- The round behind `get_tcp_node`, with the node's index and what that call returned.
abbrev pub with_endpoint :
    AcceptCalls → Node → ℕ → Endpoint → ℕ → ℕ → Pool Node → Option ℕ × Pool Endpoint → Accepted
with_endpoint c blank at node fd i np (none, tp) =
    ret (close_client fd ∷ [], record { node_pool = delete_node blank (some i) np; tcp_pool = tp })
with_endpoint c blank at node fd i np (some j, tp) = elim (get_elem? tp.slots j) [
  | none ↦ fault
  | some t ↦ ret (
    after_spawn c.spawn_ok node.on_accept_cb j,
    record {
      node_pool = np;
      tcp_pool = record tp { slots = set tp.slots j (client_endpoint at node i t) };
    },
  )
]

-- The round behind `get_node`, with what that call returned.
abbrev pub with_node :
    AcceptCalls → Node → ℕ → Endpoint → ℕ → Pool Endpoint → Option ℕ × Pool Node → Accepted
with_node c blank at node fd tp (none, np) =
    ret (close_client fd ∷ [], record { node_pool = np; tcp_pool = tp })
with_node c blank at node fd tp (some i, np) = elim (get_elem? np.slots i) [
  | none ↦ fault
  | some n ↦
      with_endpoint c blank at node fd i
        (record np { slots = set np.slots i (client_node c fd node.node_cfg.family n) })
        (get_tcp_node c.fresh_endpoints tp)
]

-- A round of `accept_thread` for the listener `node`, which is at `at`; `blank` is a node of zero
-- bytes.
unfoldable pub accept_round : AcceptCalls → Node → ℕ → Endpoint → TcpPools → Accepted
accept_round c blank at node p =
    if c.ready
    then elim c.client_fd [
      | none ↦ ret ([], p)
      | some fd ↦ with_node c blank at node fd p.tcp_pool (get_node c.fresh_nodes p.node_pool)
    ]
    else ret ([], p)

-- Whether the two calls of calloc succeed. A count is a static that is never reset.
unfoldable pub start_tcp_socket : Bool → Bool → Endpoint → Node → TcpPools → ℤ × TcpPools
start_tcp_socket made_tcp made_nodes blank_endpoint blank p =
    let tp : Pool Endpoint = record {
      slots = replicate 0x400 blank_endpoint;
      size = 0x400;
      count = p.tcp_pool.count;
    } in
    let np : Pool Node = record {
      slots = replicate 0x400 blank;
      size = 0x400;
      count = p.node_pool.count;
    } in
    let no_nodes : Pool Node = record {
      slots = [];
      size = p.node_pool.size;
      count = p.node_pool.count;
    } in
    if not made_tcp
    then (
      eof,
      record p {
        tcp_pool = record { slots = []; size = p.tcp_pool.size; count = p.tcp_pool.count };
      },
    )
    else if not made_nodes
    then (
      eof,
      record {
        node_pool = no_nodes;
        tcp_pool = record { slots = []; size = 0x400; count = p.tcp_pool.count };
      },
    )
    else (pos 0, record { node_pool = np; tcp_pool = tp })

-- The nodes of UDP, `none` where the pointer is null.
abbrev pub udp_server_is_active : Option (List Endpoint) → Bool
udp_server_is_active none = false
udp_server_is_active (some nodes) = true

unfoldable pub connect_udp_server :
    Bool → Endpoint → Option (List Endpoint) → ℤ × Option (List Endpoint)
connect_udp_server made blank p =
    if udp_server_is_active p
    then (eof, p)
    else if made
    then (pos 0, some (replicate 0x400 blank))
    else (eof, none)

-- The endpoint is stopped, and filled with zero bytes a second later.
unfoldable pub disconnect_udp_service : Endpoint → Option Endpoint → Option Endpoint
disconnect_udp_service blank none = none
disconnect_udp_service blank (some node) = some blank
