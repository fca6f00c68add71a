-- ===== src/Socket/Service/Address.antt =====
-- The address that a service of src/socket/dmmr_socket.c binds.
use dmmr_orbit.Base.{
  ℕ, Bool-cases, inl, inr, Option, Option-cases, none, some, List, Run, ret, fault, hang, get_elem?,
  ◌≡◌, refl, ap,
}
use dmmr_orbit.Base.Int.{ℤ}
use dmmr_orbit.Protocol.{Endpoint, proto_udp}
use dmmr_orbit.Socket.{Pool, get_union_protocol_base_cb}
use dmmr_orbit.Socket.Service.{
  AddrInfo, dns2ipaddr, Callbacks, UdpCalls, ServiceEffect, configure, is_address, start_udp_at,
  start_udp_service, start_acception_udp, Started,
}

-- What a start returns and what it asks of the system.
abbrev pub observed : Run Started → Option (ℤ × List ServiceEffect)
observed (ret (status, p)) = some status
observed fault = none
observed hang = none

started :
    (port port' type : ℕ) (bytes : List ℕ) (cbs : Callbacks) (c : UdpCalls) (u : Endpoint)
    → (start_udp_service c (configure proto_udp port type bytes cbs u)).0
      ≡ (start_udp_service c (configure proto_udp port' type bytes cbs u)).0
unfolding start_udp_service
started port port' type bytes cbs c u = elim (Option-cases c.socket_fd) [
  | inl no_socket ↦ rw (start_udp_service, no_socket) refl
  | inr (fd, opened) ↦ rw (start_udp_service, opened) refl
]

at :
    (port port' type : ℕ) (bytes : List ℕ) (cbs : Callbacks) (c : UdpCalls) (slot : Option ℕ)
    (q : Pool Endpoint)
    → observed (start_udp_at port (type, bytes) cbs c (slot, q))
      ≡ observed (start_udp_at port' (type, bytes) cbs c (slot, q))
unfolding start_udp_at
at port port' type bytes cbs c none q = refl
at port port' type bytes cbs c (some i) q = elim (Bool-cases (is_address type)) [
  | inr other ↦ rw (start_udp_at, other) refl
  | inl found ↦ elim (Option-cases (get_elem? q.slots i)) [
    | inl out ↦ rw (start_udp_at, found, out) refl
    | inr (u, there) ↦
        rw (start_udp_at, found, there) (ap some (started port port' type bytes cbs c u))
  ]
]

-- The port of the URI has no effect on what a start of a UDP service asks of the system: the address
-- that it binds is the one that was found for the host, whatever the port.
pub start_acception_udp-port :
    (port port' : ℕ) (res : Option (List AddrInfo)) (cbs : Callbacks) (c : UdpCalls)
    (fresh : Option (List Endpoint)) (p : Pool Endpoint)
    → observed (start_acception_udp port res cbs c fresh p)
      ≡ observed (start_acception_udp port' res cbs c fresh p)
unfolding start_acception_udp
start_acception_udp-port port port' res cbs c fresh p =
    at port port' (dns2ipaddr res).0 (dns2ipaddr res).1 cbs c (get_union_protocol_base_cb fresh p).0
      (get_union_protocol_base_cb fresh p).1
