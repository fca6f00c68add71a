-- ===== src/Socket.antt =====
-- src/socket/dmmr_socket.c and src/socket/socket_tcp.c, socket_udp.c: the pools that sockets,
-- endpoints and FIFO entries are taken from, and what a send hands to the kernel.
-- A pool's mutex is held over each of its operations. System calls are arguments: what they return.
pub mod Pools
pub mod Send
pub mod Tcp
pub mod Receive
pub mod Accept
pub mod Service
pub mod Dispatch
pub mod Stop
pub mod Address
mod Tests
use dmmr_orbit.Base.{
  ℕ, zero, suc, ◌+◌, ◌-◌, ◌*◌, ltb, leb, ◌==◌, if◌then◌else◌, not, ◌&&◌, ◌||◌, Bool, true, false,
  Option, none, some, List, [], ◌∷◌, ◌++◌, Run, ret, fault, ◌>>=◌, get_elem?, set, take, drop,
  length, replicate,
}
use dmmr_orbit.Base.Int.{ℤ, pos, eof, eqb_ℤ}
use dmmr_orbit.Node.{Node}
use dmmr_orbit.Protocol.{Endpoint, Proto, proto_none, proto_udp, proto_tcp}

-- A growing array of slots: its static pointer, size and count.
pub record Pool (A : Type 0) : Type 0 where
  pub slots : List A
  pub size : ℕ
  pub count : ℕ

-- The first free slot, from index `i` on.
unfoldable pub find_free : {A : Type 0} → (A → Bool) → ℕ → List A → Option ℕ
find_free is_free i [] = none
find_free is_free i (x ∷ xs) =
    let rest = find_free is_free (i + 1) xs in if is_free x then some i else rest

-- Behind a search that found nothing: the slot at the count, in an array that is doubled when the
-- count has reached its size. `fresh` is what a realloc adds, `none` a failed one.
unfoldable pub next_slot : {A : Type 0} → Option (List A) → Pool A → Option ℕ × Pool A
next_slot fresh p =
    if leb p.size p.count
    then elim fresh [
      | none ↦ (none, record { slots = []; size = p.size * 2; count = p.count })
      | some new ↦ (
        some p.count,
        record {
          slots = take (p.size * 2) (p.slots ++ new);
          size = p.size * 2;
          count = p.count + 1;
        },
      )
    ]
    else (some p.count, record { slots = p.slots; size = p.size; count = p.count + 1 })

abbrev pub hand_out : {A : Type 0} → (A → Bool) → Option (List A) → Pool A → Option ℕ × Pool A
hand_out is_free fresh p = elim (find_free is_free 0 (take p.size p.slots)) [
  | some i ↦ (some i, p)
  | none ↦ next_slot fresh p
]

abbrev pub is_free_node : Node → Bool
is_free_node n = eqb_ℤ n.fd (pos 0)

unfoldable pub get_node : Option (List Node) → Pool Node → Option ℕ × Pool Node
get_node fresh p = hand_out is_free_node fresh p

abbrev pub is_free_tcp_node : Endpoint → Bool
is_free_tcp_node t = t.run == 0

unfoldable pub get_tcp_node : Option (List Endpoint) → Pool Endpoint → Option ℕ × Pool Endpoint
get_tcp_node fresh p = hand_out is_free_tcp_node fresh p

abbrev pub is_free_protocol : Endpoint → Bool
is_free_protocol u = elim u.proto [ proto_none ↦ true | proto_udp ↦ false | proto_tcp ↦ false ]

unfoldable pub get_union_protocol_base_cb :
    Option (List Endpoint) → Pool Endpoint → Option ℕ × Pool Endpoint
get_union_protocol_base_cb fresh p = hand_out is_free_protocol fresh p

-- The search of `get_struct_node_buffer` reads each entry's node; `none` is an entry with none.
unfoldable pub find_free_entry : ℕ → List (Option Node) → Run (Option ℕ)
find_free_entry i [] = ret none
find_free_entry i (none ∷ es) = fault
find_free_entry i (some n ∷ es) =
    let rest = find_free_entry (i + 1) es in if is_free_node n then ret (some i) else rest

unfoldable pub get_struct_node_buffer :
    Option (List (Option Node)) → Pool (Option Node) → Run (Option ℕ × Pool (Option Node))
unfolding find_free_entry next_slot
get_struct_node_buffer fresh p = find_free_entry 0 (take p.size p.slots) >>= λ found. elim found [
  | some i ↦ ret (some i, p)
  | none ↦ ret (next_slot fresh p)
]

-- The pool of FIFO entries as `new_dmmr_socket` leaves it.
abbrev pub new_nbuff : Pool (Option Node)
new_nbuff = record { slots = replicate 0x400 none; size = 0x400; count = 0 }

-- The slot is filled with zero bytes, which are `blank`.
unfoldable pub delete_node : {A : Type 0} → A → Option ℕ → Pool A → Pool A
delete_node blank none p = p
delete_node blank (some i) p = record {
  slots = set p.slots i blank;
  size = p.size;
  count = p.count;
}

-- `struct iovec`: a node's payload and its size.
pub record Iovec : Type 0 where
  pub iov_base : List ℕ
  pub iov_len : ℕ

-- The loop that fills the vector from `siz` nodes.
unfoldable pub gather : ℕ → List Node → Run (List Iovec)
gather zero ns = ret []
gather (suc siz) [] = fault
gather (suc siz) (n ∷ ns) =
    gather siz ns >>= λ rest. ret (record { iov_base = n.value; iov_len = n.value_size } ∷ rest)

-- What a write to a socket returns: a count, EAGAIN or EINTR, or another error.
pub data Write : Type 0 where
  wrote : ℕ → Write
  again : Write
  failed : Write

-- The result of a send, with the descriptor and the vector that the kernel was given.
abbrev pub Sending : Type 0
Sending = ℤ × Option (ℤ × List Iovec)

-- A null endpoint is `false`, a null array `none`.
unfoldable pub tcp_send_to_client : Bool → Option (List Node) → ℕ → Write → Run Sending
tcp_send_to_client tcp none n_len sent = ret (eof, none)
tcp_send_to_client tcp (some []) n_len sent =
    if not tcp || (n_len == 0) then ret (eof, none) else fault
tcp_send_to_client tcp (some (n ∷ ns)) n_len sent =
    if not tcp || (n_len == 0)
    then ret (eof, none)
    else (gather (if ltb 6 n_len then 6 else n_len) (n ∷ ns) >>= λ iovs.
        ret (elim sent [ wrote count ↦ pos 0 | again ↦ pos 0 | failed ↦ eof ], some (n.fd, iovs)))

-- The address family and the port that a datagram is sent to.
pub record Destination : Type 0 where
  pub is_ipv4 : Bool
  pub port : ℕ
  pub address : List ℕ

-- The address bytes are copied from the start of the node's socket address.
abbrev pub destination : Node → Destination
destination n =
    let v4 = n.family == 2 in
    record { is_ipv4 = v4; port = n.port; address = if v4 then take 4 n.ipv4 else take 16 n.ipv6 }

unfoldable pub udp_send_to_client :
    Bool → Option (List Node) → ℕ → Write → Run (ℤ × Option (ℤ × Destination × List Iovec))
udp_send_to_client udp none n_len sent = ret (eof, none)
udp_send_to_client udp (some []) n_len sent =
    if not udp || (n_len == 0) then ret (eof, none) else fault
udp_send_to_client udp (some (n ∷ ns)) n_len sent =
    if not udp || (n_len == 0)
    then ret (eof, none)
    else (gather (if ltb 6 n_len then 6 else n_len) (n ∷ ns) >>= λ iovs. ret (
      elim sent [ wrote count ↦ pos 0 | again ↦ pos 0 | failed ↦ eof ],
      some (n.fd, destination n, iovs),
    ))
