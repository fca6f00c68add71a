-- ===== src/Socket/Accept/Client.antt =====
-- What becomes of a client that src/socket/socket_tcp.c accepts.
use dmmr_orbit.Base.{
  ℕ, true, Option, Option-cases, none, some, [], ◌∷◌, ret, fault, get_elem?, ◌≡◌, refl, ◌⊎◌, inl,
  inr,
}
use dmmr_orbit.Base.Int.{pos}
use dmmr_orbit.Node.{Node}
use dmmr_orbit.Protocol.{Endpoint}
use dmmr_orbit.Socket.{Pool}
use dmmr_orbit.Socket.Pools.{get_node_unstarted}
use dmmr_orbit.Socket.Accept.{
  TcpPools, AcceptCalls, close_client, after_spawn, Accepted, accept_round,
}

-- What a call for a slot gave: an index in its pool's array, or one that is not.
abbrev pub GivesIn : {A : Type 0} → Option ℕ × Pool A → Type 0
GivesIn {A} (slot, pool) = (i : ℕ) × (x : A) × (slot ≡ some i) × (get_elem? pool.slots i ≡ some x)

abbrev pub GivesOut : {A : Type 0} → Option ℕ × Pool A → Type 0
GivesOut (slot, pool) = (i : ℕ) × (slot ≡ some i) × (get_elem? pool.slots i ≡ none)

-- A client with its descriptor in a node, and the endpoint of index `j` set up on that node.
abbrev pub IsSetUp : ℕ → Endpoint → ℕ → ℕ → TcpPools → Type 0
IsSetUp at node fd j p =
    (i : ℕ) × (n : Node) × (t : Endpoint) × (get_elem? p.node_pool.slots i ≡ some n)
    × (get_elem? p.tcp_pool.slots j ≡ some t)
    × (n.fd ≡ pos fd)
    × (t.node ≡ some i)
    × (t.run ≡ 1)
    × (t.parent ≡ some at)
    × (t.on_receive_cb ≡ node.on_receive_cb)

-- What became of the client, from what the two calls for a slot gave.
abbrev pub ClientOutcome :
    AcceptCalls
    → ℕ
    → Endpoint
    → ℕ
    → Option ℕ × Pool Node
    → Option ℕ × Pool Endpoint
    → Accepted
    → Type 0
ClientOutcome c at node fd g h r =
    ((r ≡ fault) × (GivesOut g ⊎ (GivesIn g × GivesOut h)))
    ⊎ ((p : TcpPools) × (r ≡ ret (close_client fd ∷ [], p))
        × ((g.0 ≡ none) ⊎ (GivesIn g × (h.0 ≡ none))))
    ⊎ ((j : ℕ) × (p : TcpPools) × (r ≡ ret (after_spawn c.spawn_ok node.on_accept_cb j, p))
        × GivesIn g
        × (h.0 ≡ some j)
        × IsSetUp at node fd j p)

-- On a pool of nodes that was never started, as in the program, no accepted client is served: the
-- round closes its descriptor, or writes a node that is in no array.
pub accept_round_unstarted :
    (c : AcceptCalls) (blank : Node) (at : ℕ) (node : Endpoint) (count : ℕ) (tp : Pool Endpoint)
    (fd : ℕ)
    → c.ready ≡ true
    → c.client_fd ≡ some fd
    → (accept_round c blank at node
          (record { node_pool = record { slots = []; size = 0; count = count }; tcp_pool = tp })
        ≡ fault)
      ⊎ ((p : TcpPools) × (accept_round c blank at node
              (record { node_pool = record { slots = []; size = 0; count = count }; tcp_pool = tp })
            ≡ ret (close_client fd ∷ [], p)))
unfolding accept_round
accept_round_unstarted c blank at node count tp fd ready accepted =
    let (r, count', e) = get_node_unstarted c.fresh_nodes count in
    elim (Option-cases r) [
      | inl none_left ↦ inr (
        record { node_pool = record { slots = []; size = 0; count = count' }; tcp_pool = tp },
        rw (accept_round, ready, accepted, e, none_left) refl,
      )
      | inr (i, some_slot) ↦ inl (rw (accept_round, ready, accepted, e, some_slot) refl)
    ]
