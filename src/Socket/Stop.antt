-- ===== src/Socket/Stop.antt =====
-- src/socket/socket_tcp.c, socket_udp.c and dmmr_socket.c: how endpoints, FIFO entries and the pools
-- are given up.
-- A pool without a slot stands for the null pointer, and for one that was freed. `blank` is an
-- endpoint of zero bytes; a zeroed FIFO entry has no node.
use dmmr_orbit.Base.{
  ℕ, Bool, false, ◌*◌, ◌<◌, ◌≤◌, ltb, leb, if◌then◌else◌, true, Option, none, some, List, [], ◌∷◌,
  map, Run, ret, fault, ◌>>=◌, set, take, ◌≡◌, refl, arith,
}
use dmmr_orbit.Node.{Node}
use dmmr_orbit.Protocol.{Endpoint}
use dmmr_orbit.Socket.{Pool, get_tcp_node, find_free, is_free_tcp_node, hand_out, next_slot}
use dmmr_orbit.Socket.Dispatch.{SocketState}

abbrev pub without_run : Endpoint → Endpoint
without_run t = record t { run = 0 }

-- `do { if (p) p->run = 0; } while (++p < p1);`: behind a null pointer the second address is not
-- null.
abbrev pub clear_run : Pool Endpoint → List Endpoint → Run (List Endpoint)
clear_run p [] = if ltb 1 p.size then fault else ret []
clear_run p (t ∷ ts) = ret (map without_run (t ∷ ts))

-- `stop_tcp_socket`: the endpoints as they are freed, and the pool.
unfoldable pub stop_tcp_socket : Pool Endpoint → Run (List Endpoint × Pool Endpoint)
stop_tcp_socket p = clear_run p p.slots >>= λ last.
    ret (last, record { slots = []; size = p.size; count = p.count })

-- `disconnect_udp_server` of the one endpoint `i`, which it does not look at.
unfoldable pub disconnect_udp_server : ℕ → Pool Endpoint → Run (List Endpoint × Pool Endpoint)
disconnect_udp_server i p = clear_run p p.slots >>= λ last.
    ret (last, record { slots = []; size = p.size; count = p.count })

unfoldable pub delete_tcp_node : Endpoint → ℕ → Pool Endpoint → Pool Endpoint
delete_tcp_node blank i p = record { slots = set p.slots i blank; size = p.size; count = p.count }

-- `disconnect_tcp_server`, whose argument may be null.
unfoldable pub disconnect_tcp_server : Endpoint → Option ℕ → Pool Endpoint → Pool Endpoint
unfolding delete_tcp_node
disconnect_tcp_server blank none p = p
disconnect_tcp_server blank (some i) p = delete_tcp_node blank i p

-- `delete_dmmr_socket`, which keeps `this` and the FIFO's entries.
unfoldable pub delete_dmmr_socket : SocketState → SocketState
delete_dmmr_socket s = record s {
  cap = record { slots = []; size = s.cap.size; count = s.cap.count };
}

-- `pthread_mutex_unlock` of a mutex that is held or not; what nobody holds has no unlock.
abbrev pub unlock : Bool → Run Bool
unlock true = ret false
unlock false = fault

-- `__delete_struct_node_buffer` of an entry or a null pointer, and whether its mutex is held. The first
-- call on the mutex is an unlock too.
unfoldable pub delete_struct_node_buffer :
    Bool → Option ℕ → Pool (Option Node) → Run (Bool × Pool (Option Node))
delete_struct_node_buffer held none p = ret (held, p)
delete_struct_node_buffer held (some i) p = unlock held >>= λ held'. unlock held' >>= λ held''.
    ret (held'', record { slots = set p.slots i none; size = p.size; count = p.count })

-- `delete_union_protocol_base_cb`, likewise.
unfoldable pub delete_union_protocol_base_cb :
    Endpoint → Bool → Option ℕ → Pool Endpoint → Run (Bool × Pool Endpoint)
delete_union_protocol_base_cb blank held none p = ret (held, p)
delete_union_protocol_base_cb blank held (some i) p = unlock held >>= λ held'.
    unlock held' >>= λ held''.
    ret (held'', record { slots = set p.slots i blank; size = p.size; count = p.count })

-- No entry and no union can be deleted, whoever holds the mutex: it is unlocked twice.
pub deletes_fault :
    (blank : Endpoint) (held : Bool) (i : ℕ) (entries : Pool (Option Node)) (cap : Pool Endpoint)
    → (delete_struct_node_buffer held (some i) entries ≡ fault)
      × (delete_union_protocol_base_cb blank held (some i) cap ≡ fault)
unfolding delete_struct_node_buffer delete_union_protocol_base_cb
deletes_fault blank true i entries cap = (refl, refl)
deletes_fault blank false i entries cap = (refl, refl)

-- When the pool of endpoints could not grow, it has lost its array and has twice its size, so the
-- stop of the sockets writes through an address behind the null pointer.
pub stop_tcp_socket-get_tcp_node_faults :
    (p : Pool Endpoint)
    → find_free is_free_tcp_node 0 (take p.size p.slots) ≡ none
    → p.size ≤ p.count
    → 0 < p.size
    → stop_tcp_socket (get_tcp_node none p).1 ≡ fault
unfolding stop_tcp_socket get_tcp_node next_slot
stop_tcp_socket-get_tcp_node_faults p full counted some_size =
    let grown : leb p.size p.count ≡ true = ground arith in
    let two : ltb 1 (p.size * 2) ≡ true = ground arith in
    rw (stop_tcp_socket, get_tcp_node, hand_out, full, next_slot, grown, two) refl
