-- ===== src/Socket/Dispatch.antt =====
-- src/socket/dmmr_socket.c: what the server calls through `struct dmmr_socket`, from a URI to the
-- endpoint that is started or connected, and from an endpoint's nodes to the send.
pub mod Send
use dmmr_orbit.Base.{
  ℕ, zero, suc, ◌-◌, ◌*◌, ◌==◌, if◌then◌else◌, ◌&&◌, ◌||◌, not, Bool, true, false, Option, none,
  some, List, [], ◌∷◌, ◌++◌, Run, ret, fault, ◌>>=◌, get_elem?, set, length, replicate,
}
use dmmr_orbit.Base.Int.{ℤ, pos, eof}
use dmmr_orbit.Node.{Node, af_inet, af_inet6, ezp_invalid}
use dmmr_orbit.Protocol.{Endpoint, Proto, proto_none, proto_udp, proto_tcp}
use dmmr_orbit.Parser.{over}
use dmmr_orbit.Parser.Uri.{Parsed, parse_protocol_host_port}
use dmmr_orbit.Socket.{
  Pool, get_union_protocol_base_cb, tcp_send_to_client, udp_send_to_client, Write, Iovec,
  Destination, Sending,
}
use dmmr_orbit.Socket.Tcp.{
  Calls, Effect, close, set_run, start_tcp_service, ConnectCalls, ConnectEffect, connect_tcp_server,
}
use dmmr_orbit.Socket.Service.{
  AddrInfo, dns2ipaddr, Callbacks, configure, set_fd, fd_of, UdpCalls, write_slot,
  start_acception_udp, start_acception_tcp,
}

abbrev pub drop_effects :
    {E : Type 0} → Run ((ℤ × List E) × Pool Endpoint) → Run (ℤ × Pool Endpoint)
drop_effects r = r >>= λ (status, p). ret (status.0, p)

-- What the system does during one call: what `getaddrinfo` finds for a host, what the calls of a
-- start or a connection return, and what a realloc of the pool of endpoints adds.
pub record System : Type 0 where
  pub resolve : List ℕ → Option (List AddrInfo)
  pub udp_calls : UdpCalls
  pub tcp_calls : Calls
  pub connect_calls : ConnectCalls
  pub own_fd : Option ℕ
  pub fresh : Option (List Endpoint)

unfoldable pub start_acception :
    System → Proto → ℕ → List ℕ → Callbacks → Callbacks → Pool Endpoint → Run (ℤ × Pool Endpoint)
start_acception sys proto port ip udp_cbs tcp_cbs p = elim proto [
  | proto_udp ↦
      drop_effects (start_acception_udp port (sys.resolve ip) udp_cbs sys.udp_calls sys.fresh p)
  | proto_tcp ↦
      drop_effects
        (start_acception_tcp port (sys.resolve ip) tcp_cbs sys.own_fd sys.tcp_calls sys.fresh p)
  | proto_none ↦ ret (eof, p)
]

-- The string in a buffer.
abbrev pub text_of : List ℕ → List ℕ
text_of [] = []
text_of (c ∷ cs) = let rest = text_of cs in if c == 0 then [] else c ∷ rest

abbrev pub host_buf : List ℕ
host_buf = replicate 0x100 0

-- The parse of a URI into a buffer of zeros; `port` is what the stack held.
abbrev pub parse_uri : List ℕ → ℕ → Run Parsed
parse_uri uri port = parse_protocol_host_port uri host_buf 0x100 port

unfoldable pub start_accept_from_uri :
    System → Option (List ℕ) → ℕ → Callbacks → Callbacks → Pool Endpoint → Run (ℤ × Pool Endpoint)
start_accept_from_uri sys none garbage udp_cbs tcp_cbs p = ret (eof, p)
start_accept_from_uri sys (some uri) garbage udp_cbs tcp_cbs p =
    parse_uri uri garbage >>= λ (proto, host, port). elim proto [
      | proto_none ↦ ret (eof, p)
      | proto_udp ↦ start_acception sys proto_udp port (text_of host) udp_cbs tcp_cbs p
      | proto_tcp ↦ start_acception sys proto_tcp port (text_of host) udp_cbs tcp_cbs p
    ]

abbrev pub is_set : Option ℕ → Bool
is_set none = false
is_set (some cb) = true

-- With no endpoint to be had the function runs off its end with no value.
unfoldable pub start_dispatcher_tcp :
    System → List ℕ → ℕ → Callbacks → Pool Endpoint → Run ((ℤ × List ConnectEffect) × Pool Endpoint)
start_dispatcher_tcp sys ip port cbs p =
    let (slot, p') = get_union_protocol_base_cb sys.fresh p in
    let (type, bytes) = dns2ipaddr (sys.resolve ip) in
    elim slot [
      | none ↦ fault
      | some i ↦ elim (get_elem? p'.slots i) [
        | none ↦ fault
        | some u ↦
            let (effects, status) =
              connect_tcp_server true (is_set cbs.on_connect) sys.connect_calls in
            let u' =
              set_fd (fd_of sys.connect_calls.socket_fd)
                (configure proto_tcp port type bytes cbs u) in
            ret ((status, effects), write_slot p' i u')
      ]
    ]

-- The pool of UDP nodes is made, if there is none; then the function runs off its end.
abbrev pub start_dispatcher_udp : Run (ℤ × Pool Endpoint)
start_dispatcher_udp = fault

unfoldable pub create_dispatcher_from_uri :
    System → Option (List ℕ) → ℕ → Callbacks → Pool Endpoint → Run (ℤ × Pool Endpoint)
create_dispatcher_from_uri sys none garbage tcp_cbs p = ret (eof, p)
create_dispatcher_from_uri sys (some uri) garbage tcp_cbs p =
    parse_uri uri garbage >>= λ (proto, host, port). elim proto [
      | proto_none ↦ ret (eof, p)
      | proto_udp ↦ start_dispatcher_udp
      | proto_tcp ↦ drop_effects (start_dispatcher_tcp sys (text_of host) port tcp_cbs p)
    ]

-- `dispatcher`: the call of a send that it makes, if any, and what that hands to the kernel.
pub data Dispatched : Type 0 where
  nothing_sent : Dispatched
  by_udp : ℤ × Option (ℤ × Destination × List Iovec) → Dispatched
  by_tcp : Sending → Dispatched

unfoldable pub dispatcher : Option Endpoint → Option (List Node) → ℕ → Write → Run Dispatched
dispatcher none n nl sent = ret nothing_sent
dispatcher (some u) none nl sent = ret nothing_sent
dispatcher (some u) (some n) nl sent = if nl == 0 then ret nothing_sent else elim u.proto [
  | proto_udp ↦ udp_send_to_client true (some n) nl sent >>= λ s. ret (by_udp s)
  | proto_tcp ↦ tcp_send_to_client true (some n) nl sent >>= λ s. ret (by_tcp s)
  | proto_none ↦ ret nothing_sent
]

-- The static data of dmmr_socket.c: whether `this` is set, and the two pools.
pub record SocketState : Type 0 where
  pub this : Bool
  pub cap : Pool Endpoint
  pub nbuff : Pool (Option Node)

-- Whether the three calls of calloc succeed; `blank` is an endpoint of zero bytes. The result is
-- false for a null pointer.
unfoldable pub new_dmmr_socket : Bool → Bool → Bool → Endpoint → SocketState → Bool × SocketState
new_dmmr_socket made_p made_cap made_nbuff blank s =
    let cap : Pool Endpoint = record {
      slots = replicate 0x400 blank;
      size = 0x400;
      count = s.cap.count;
    } in
    let no_cap : Pool Endpoint = record { slots = []; size = s.cap.size; count = s.cap.count } in
    if s.this || not made_p
    then (false, s)
    else if not made_cap
    then (false, record s { cap = no_cap })
    else if not made_nbuff
    then (
      false,
      record s {
        cap = cap;
        nbuff = record { slots = []; size = s.nbuff.size; count = s.nbuff.count };
      },
    )
    else (
      true,
      record {
        this = true;
        cap = cap;
        nbuff = record { slots = replicate 0x400 none; size = 0x400; count = s.nbuff.count };
      },
    )
