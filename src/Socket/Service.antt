-- ===== src/Socket/Service.antt =====
-- src/socket/dmmr_socket.c and socket_udp.c: how an endpoint is taken from the pool, addressed and
-- started; `dns2ipaddr` of src/include/funcs.h.
-- An endpoint is a slot of the pool. What the system's calls return is an argument; what they are
-- asked for is a list of effects.
pub mod Start
pub mod Address
use dmmr_orbit.Base.{
  ℕ, zero, suc, ◌-◌, ◌*◌, ◌==◌, if◌then◌else◌, ◌&&◌, ◌||◌, not, Bool, true, false, Option, none,
  some, List, [], ◌∷◌, ◌++◌, Run, ret, fault, ◌>>=◌, get_elem?, set, length, replicate,
}
use dmmr_orbit.Base.Int.{ℤ, pos, eof}
use dmmr_orbit.Node.{Node, af_inet, af_inet6, ezp_invalid}
use dmmr_orbit.Protocol.{Endpoint, Proto, proto_none, proto_udp, proto_tcp}
use dmmr_orbit.Parser.{over}
use dmmr_orbit.Parser.Uri.{Parsed, parse_protocol_host_port}
use dmmr_orbit.Socket.{
  Pool, get_union_protocol_base_cb, tcp_send_to_client, udp_send_to_client, Write, Iovec,
  Destination, Sending,
}
use dmmr_orbit.Socket.Tcp.{
  Calls, Effect, close, set_run, start_tcp_service, ConnectCalls, ConnectEffect, connect_tcp_server,
}

-- `struct addrinfo`: a family and the bytes of a socket address.
pub record AddrInfo : Type 0 where
  pub ai_family : ℕ
  pub ai_addr : List ℕ

-- The loop over what `getaddrinfo` found.
unfoldable pub first_address : List AddrInfo → ℕ × List ℕ
first_address [] = (ezp_invalid, [])
first_address (p ∷ ps) =
    let rest = first_address ps in
    if (p.ai_family == af_inet) || (p.ai_family == af_inet6) then (p.ai_family, p.ai_addr) else rest

-- The family, and the bytes that are written to `out`. `none` is a failed `getaddrinfo`.
abbrev pub dns2ipaddr : Option (List AddrInfo) → ℕ × List ℕ
dns2ipaddr none = (ezp_invalid, [])
dns2ipaddr (some res) = first_address res

-- The callbacks that the functions pass on, by their addresses.
pub record Callbacks : Type 0 where
  pub on_accept : Option ℕ
  pub on_connect : Option ℕ
  pub on_receive : Option ℕ
  pub on_close : Option ℕ

-- `node_cfg` with the address copied into the member of its family.
abbrev pub address_node : ℕ → List ℕ → Node → Node
address_node type bytes n =
    if type == af_inet
    then record n { ipv4 = over bytes n.ipv4 }
    else if type == af_inet6
    then record n { ipv6 = over bytes n.ipv6 }
    else n

-- The assignments to an endpoint that is to be started.
abbrev pub configure : Proto → ℕ → ℕ → List ℕ → Callbacks → Endpoint → Endpoint
configure proto port type bytes cbs u =
    let addressed = address_node type bytes u.node_cfg in
    record u {
      proto = proto;
      node_cfg = record addressed { port = port; family = type };
      on_accept_cb = cbs.on_accept;
      on_connect_cb = cbs.on_connect;
      on_close_cb = cbs.on_close;
      on_receive_cb = cbs.on_receive;
    }

abbrev pub set_fd : ℤ → Endpoint → Endpoint
set_fd fd u = let cfg = u.node_cfg in record u { node_cfg = record cfg { fd = fd } }

-- The bytes of the socket address that a service is bound to, by the switch on the family.
abbrev pub bind_address : Node → Option (List ℕ)
bind_address cfg =
    if cfg.family == af_inet
    then some cfg.ipv4
    else if cfg.family == af_inet6
    then some cfg.ipv6
    else none

-- What the calls of one start of a UDP service return.
pub record UdpCalls : Type 0 where
  pub socket_fd : Option ℕ
  pub bind_ok : Bool
  pub spawned : ℕ

pub data ServiceEffect : Type 0 where
  bind_to : List ℕ → ServiceEffect
  close_fd : ℕ → ServiceEffect
  spawn : ServiceEffect

-- The bind, where there is an address, and the start of the thread.
unfoldable pub bind_and_spawn : UdpCalls → ℕ → Option (List ℕ) → ℤ × List ServiceEffect
bind_and_spawn c fd none = (pos c.spawned, spawn ∷ [])
bind_and_spawn c fd (some a) =
    if c.bind_ok
    then (pos c.spawned, bind_to a ∷ spawn ∷ [])
    else (eof, bind_to a ∷ close_fd fd ∷ [])

-- `run` is set first, and stays set when the start fails.
unfoldable pub start_udp_service : UdpCalls → Endpoint → (ℤ × List ServiceEffect) × Endpoint
start_udp_service c node =
    let running = record node { run = 1 } in
    elim c.socket_fd [
      | none ↦ ((eof, []), set_fd eof running)
      | some fd ↦ (bind_and_spawn c fd (bind_address node.node_cfg), set_fd (pos fd) running)
    ]

-- What the services are asked for, and how the pool is left.
abbrev pub Started : Type 0
Started = (ℤ × List ServiceEffect) × Pool Endpoint

abbrev pub write_slot : Pool Endpoint → ℕ → Endpoint → Pool Endpoint
write_slot p i u = record p { slots = set p.slots i u }

-- `type` is one of the two families that the switch accepts.
abbrev pub is_address : ℕ → Bool
is_address type = (type == af_inet) || (type == af_inet6)

-- The UDP case of `start_acception`, for the slot and the address that were found.
unfoldable pub start_udp_at :
    ℕ → ℕ × List ℕ → Callbacks → UdpCalls → Option ℕ × Pool Endpoint → Run Started
start_udp_at port found cbs c (none, p) = ret ((eof, []), p)
start_udp_at port (type, bytes) cbs c (some i, p) =
    if is_address type
    then elim (get_elem? p.slots i) [
      | none ↦ fault
      | some u ↦
          let (status, u') = start_udp_service c (configure proto_udp port type bytes cbs u) in
          ret (status, write_slot p i u')
    ]
    else ret ((eof, []), p)

unfoldable pub start_acception_udp :
    ℕ
    → Option (List AddrInfo)
    → Callbacks
    → UdpCalls
    → Option (List Endpoint)
    → Pool Endpoint
    → Run Started
start_acception_udp port res cbs c fresh p =
    start_udp_at port (dns2ipaddr res) cbs c (get_union_protocol_base_cb fresh p)

-- What a TCP service does to its endpoint: the descriptor, and `run`.
abbrev pub tcp_endpoint_after : Calls → List Effect → Endpoint → Endpoint
tcp_endpoint_after c [] u = u
tcp_endpoint_after c (close fd ∷ es) u = tcp_endpoint_after c es u
tcp_endpoint_after c (set_run ∷ es) u = tcp_endpoint_after c es (record u { run = 1 })

abbrev pub fd_of : Option ℕ → ℤ
fd_of none = eof
fd_of (some fd) = pos fd

-- The TCP case. `own_fd` is the descriptor of the endpoint's node, where it has one.
unfoldable pub start_acception_tcp :
    ℕ
    → Option (List AddrInfo)
    → Callbacks
    → Option ℕ
    → Calls
    → Option (List Endpoint)
    → Pool Endpoint
    → Run ((ℤ × List Effect) × Pool Endpoint)
start_acception_tcp port res cbs own_fd c fresh p =
    let (slot, p') = get_union_protocol_base_cb fresh p in
    let (type, bytes) = dns2ipaddr res in
    elim slot [
      | none ↦ ret ((eof, []), p')
      | some i ↦
          if is_address type
          then elim (get_elem? p'.slots i) [
            | none ↦ fault
            | some u ↦ start_tcp_service true true own_fd c >>= λ (status, effects).
                let u' = set_fd (fd_of c.socket_fd) (configure proto_tcp port type bytes cbs u) in
                ret ((status, effects), write_slot p' i (tcp_endpoint_after c effects u'))
          ]
          else ret ((eof, []), p')
    ]
