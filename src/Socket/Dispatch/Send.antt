-- ===== src/Socket/Dispatch/Send.antt =====
-- `dispatcher` of src/socket/dmmr_socket.c, down to what the kernel is handed.
use dmmr_orbit.Base.{
  ℕ, ◌<◌, ◌≤◌, ◌==◌, ◌⊎◌, inl, inr, false, some, List, ◌∷◌, length, map, take, ret, ◌≡◌, refl,
  arith,
}
use dmmr_orbit.Node.{Node}
use dmmr_orbit.Protocol.{Endpoint, Proto, proto_none, proto_udp, proto_tcp}
use dmmr_orbit.Socket.{Write, destination}
use dmmr_orbit.Socket.Send.{iovec_of, status, tcp_send_to_client_lem, udp_send_to_client_lem}
use dmmr_orbit.Socket.Dispatch.{Dispatched, nothing_sent, by_udp, by_tcp, dispatcher}

-- What is sent of the first `nl` nodes of an array, the first of which is `n`.
abbrev pub expected : Proto → Node → List Node → Write → Dispatched
expected proto_none n sent_nodes sent = nothing_sent
expected proto_udp n sent_nodes sent =
    by_udp (status sent, some (n.fd, destination n, map iovec_of (take 6 sent_nodes)))
expected proto_tcp n sent_nodes sent =
    by_tcp (status sent, some (n.fd, map iovec_of (take 6 sent_nodes)))

Proto-cases : (p : Proto) → (p ≡ proto_none) ⊎ ((p ≡ proto_udp) ⊎ (p ≡ proto_tcp))
Proto-cases proto_none = inl refl
Proto-cases proto_udp = inr (inl refl)
Proto-cases proto_tcp = inr (inr refl)

-- Of an array of at least `nl` nodes the dispatcher sends the payloads of the first six of the first
-- `nl` nodes, in one write to the descriptor of the first node: over UDP to that node's address, over
-- TCP to its connection. With no protocol nothing is sent. The write's result is dropped beyond its
-- kind, and the nodes behind the sixth are not sent.
pub dispatcher_lem :
    (u : Endpoint) (n : Node) (ns : List Node) (nl : ℕ) (sent : Write)
    → 0 < nl
    → nl ≤ length (n ∷ ns)
    → dispatcher (some u) (some (n ∷ ns)) nl sent ≡ ret (expected u.proto n (take nl (n ∷ ns)) sent)
unfolding dispatcher
dispatcher_lem u n ns nl sent some_nodes h =
    let nonzero : (nl == 0) ≡ false = ground arith in
    elim (Proto-cases u.proto) [
      | inl e ↦ rw (dispatcher, nonzero, e) refl
      | inr (inl e) ↦
          rw (dispatcher, nonzero, e, udp_send_to_client_lem nl n ns sent some_nodes h) refl
      | inr (inr e) ↦
          rw (dispatcher, nonzero, e, tcp_send_to_client_lem nl n ns sent some_nodes h) refl
    ]
