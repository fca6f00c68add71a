-- ===== src/Socket/Service/Start.antt =====
-- Starting a UDP service from the pool of endpoints (src/socket/dmmr_socket.c, socket_udp.c).
use dmmr_orbit.Base.{
  ℕ, true, false, Option, none, some, List, [], ◌∷◌, ret, get_elem?, ◌≡◌, refl, ap, ◌∙◌, ◌⊎◌, inl,
  inr, Bool-cases, Option-cases,
}
use dmmr_orbit.Base.Int.{ℤ, pos, eof}
use dmmr_orbit.Protocol.{Endpoint, proto_udp}
use dmmr_orbit.Socket.{Pool, get_union_protocol_base_cb}
use dmmr_orbit.Socket.Service.{
  AddrInfo, dns2ipaddr, Callbacks, configure, bind_address, UdpCalls, ServiceEffect, bind_to,
  close_fd, spawn, bind_and_spawn, start_udp_service, start_udp_at, is_address, write_slot,
  start_acception_udp,
}

-- How a start ends, with its socket, and the address that it binds.
abbrev pub Outcome : UdpCalls → Option (List ℕ) → ℤ × List ServiceEffect → Type 0
Outcome c a (status, effects) =
    ((c.socket_fd ≡ none) × (status ≡ eof) × (effects ≡ []))
    ⊎ ((fd : ℕ) × (c.socket_fd ≡ some fd)
        × (((a ≡ none) × (status ≡ pos c.spawned) × (effects ≡ spawn ∷ []))
            ⊎ ((bytes : List ℕ) × (a ≡ some bytes)
                × (((c.bind_ok ≡ true)
                      × (status ≡ pos c.spawned)
                      × (effects ≡ bind_to bytes ∷ spawn ∷ []))
                    ⊎ ((c.bind_ok ≡ false)
                        × (status ≡ eof)
                        × (effects ≡ bind_to bytes ∷ close_fd fd ∷ []))))))

-- An endpoint that is being started, or that was left by a failed start.
abbrev pub IsInUse : ℕ → Endpoint → Type 0
IsInUse port u = (u.run ≡ 1) × (u.proto ≡ proto_udp) × (u.node_cfg.port ≡ port)

start_udp_service_lem :
    (c : UdpCalls) (u : Endpoint) (port : ℕ)
    → u.proto ≡ proto_udp
    → u.node_cfg.port ≡ port
    → Outcome c (bind_address u.node_cfg) (start_udp_service c u).0
      × IsInUse port (start_udp_service c u).1
unfolding start_udp_service bind_and_spawn
start_udp_service_lem c u port proto at = elim (Option-cases c.socket_fd) [
  | inl no_socket ↦ rw (start_udp_service, no_socket) (inl (refl, refl, refl), (refl, proto, at))
  | inr (fd, opened) ↦ elim (Option-cases (bind_address u.node_cfg)) [
    | inl no_address ↦
        rw (start_udp_service, opened, no_address, bind_and_spawn)
          (inr (fd, refl, inl (refl, refl, refl)), (refl, proto, at))
    | inr (bytes, address) ↦ elim (Bool-cases c.bind_ok) [
      | inl bound ↦
          rw (start_udp_service, opened, address, bind_and_spawn, bound)
            (inr (fd, refl, inr (bytes, refl, inl (refl, refl, refl))), (refl, proto, at))
      | inr refused ↦
          rw (start_udp_service, opened, address, bind_and_spawn, refused)
            (inr (fd, refl, inr (bytes, refl, inr (refl, refl, refl))), (refl, proto, at))
    ]
  ]
]

-- With an endpoint handed out by the pool and an IPv4 or IPv6 address found for the host, a start of
-- a UDP service returns EOF with its socket closed, or what the start of the thread returned, as the
-- calls go. In each case the endpoint's slot, and no other, is written: it has the protocol, the port
-- and `run`, so that it is in use even when the start failed.
pub start_acception_udp_lem :
    (port : ℕ) (res : Option (List AddrInfo)) (cbs : Callbacks) (c : UdpCalls)
    (fresh : Option (List Endpoint)) (p p' : Pool Endpoint) (i type : ℕ) (bytes : List ℕ)
    (u : Endpoint)
    → get_union_protocol_base_cb fresh p ≡ (some i, p')
    → get_elem? p'.slots i ≡ some u
    → dns2ipaddr res ≡ (type, bytes)
    → is_address type ≡ true
    → (status : ℤ × List ServiceEffect) × (u' : Endpoint) × (start_acception_udp port res cbs c
          fresh p
        ≡ ret (status, write_slot p' i u'))
      × Outcome c (bind_address (configure proto_udp port type bytes cbs u).node_cfg) status
      × IsInUse port u'
unfolding start_acception_udp start_udp_at
start_acception_udp_lem port res cbs c fresh p p' i type bytes u slot there address found =
    let ready = configure proto_udp port type bytes cbs u in
    let (outcome, in_use) = start_udp_service_lem c ready port refl refl in
    (
      (start_udp_service c ready).0,
      (start_udp_service c ready).1,
      ap (start_udp_at port (dns2ipaddr res) cbs c) slot
          ∙ ap (λ a. start_udp_at port a cbs c (some i, p')) address
          ∙ rw (start_udp_at, found, there) refl,
      outcome,
      in_use,
    )
