-- ===== src/Session/Worker.antt =====
-- src/session/session_connection.c: the rounds of a session's thread keep its pool in order.
use dmmr_orbit.Base.{
  ℕ, zero, suc, ◌+◌, ◌-◌, ◌*◌, ◌%◌, ◌^◌, ◌≤◌, ◌<◌, ltb, leb, ◌&&◌, Bool, Bool-cases, true, false,
  Option, Option-cases, some, List, [], ◌∷◌, ◌++◌, ret, get_elem?, set, take, drop, length,
  length-set, length-take, length-drop, length-append, ◌≡◌, refl, sym, ◌∙◌, inl, inr, arith,
}
use mathlib.Core.Path.{subst}
use dmmr_orbit.Base.Int.{pos, eqb_ℤ}
use dmmr_orbit.Node.{Node, value_output_buffer_size}
use dmmr_orbit.Node.Cmp.{node_cmp}
use dmmr_orbit.Protocol.{Endpoint, Heap, get_session_pointer, update_session_counter}
use dmmr_orbit.Session.{
  SessionConnectionPool, slide, sort_rounds, sort_pool_by_arrival_inline, get_session_size, burst,
  shift_down, call_snd_cb, send_burst, own_node, process_session_node, grow, session_round, Sent,
}

length-slide : (key : Node) (v : List Node) (j : ℕ) → length (slide key v j) ≡ length v
unfolding slide
length-slide key v zero = length-set v 0 key
length-slide key v (suc j) = elim (Option-cases (get_elem? v j)) [
  | inl out ↦ rw (slide, out) refl
  | inr (x, at) ↦ elim (Bool-cases (ltb key.arrival x.arrival)) [
    | inl later ↦
        rw (slide, at, later) (length-slide key (set v (suc j) x) j ∙ length-set v (suc j) x)
    | inr here ↦ rw (slide, at, here) (length-set v (suc j) key)
  ]
]

length-sort_rounds : (n i : ℕ) (v : List Node) → length (sort_rounds n i v) ≡ length v
unfolding sort_rounds
length-sort_rounds zero i v = refl
length-sort_rounds (suc n) i v = elim (Option-cases (get_elem? v i)) [
  | inl out ↦ rw (sort_rounds, out) refl
  | inr (key, at) ↦
      rw (sort_rounds, at) (length-sort_rounds n (i + 1) (slide key v i) ∙ length-slide key v i)
]

length-sort_pool : (v : List Node) (c : ℕ) → length (sort_pool_by_arrival_inline v c) ≡ length v
unfolding sort_pool_by_arrival_inline
length-sort_pool v c = elim (Bool-cases (ltb c 2)) [
  | inl few ↦ rw (sort_pool_by_arrival_inline, few) refl
  | inr many ↦ rw (sort_pool_by_arrival_inline, many) (length-sort_rounds (c - 1) 1 v)
]

length-shift_down : (v : List Node) (c n : ℕ) → n ≤ length v → length (shift_down v c n) ≡ length v
length-shift_down v c n h = omega (
  arith,
  length-append (take (n - c) (drop c v)) (drop (n - c) v),
  length-take (n - c) (drop c v),
  length-drop c v,
  length-drop (n - c) v,
)

-- The array has the pool's size, which is not zero, and the nodes in use fit it.
abbrev pub IsFit : SessionConnectionPool → Type 0
IsFit conn =
    (v : List Node) × (conn.pool ≡ some v)
    × (length v ≡ conn.pool_size)
    × (0 < conn.pool_size)
    × (conn.pool_count ≤ conn.pool_size)

-- The endpoint's copies can be read: its link, and its counted nodes.
abbrev pub IsReadable : Heap → Endpoint → Type 0
IsReadable h u =
    ((o : Option ℕ) × (get_session_pointer (some u) ≡ ret o))
    × ((u' : Endpoint) × (update_session_counter h u ≡ ret u'))

call_snd_cb-runs :
    (h : Heap) (has_snd_cb : Bool) (u : Endpoint) (nodes : List Node)
    → IsReadable h u
    → (sent : List Sent) × (call_snd_cb has_snd_cb u nodes ≡ ret sent)
unfolding call_snd_cb
call_snd_cb-runs h true u nodes ((o, e), counted) =
    (record { target = o; nodes = nodes } ∷ [], rw e refl)
call_snd_cb-runs h false u nodes readable = ([], refl)

send_burst-IsFit :
    (h : Heap) (has_snd_cb : Bool) (conn : SessionConnectionPool) (v : List Node)
    → length v ≡ conn.pool_size
    → 0 < conn.pool_size
    → conn.pool_count ≤ conn.pool_size
    → IsReadable h conn.session
    → (conn' : SessionConnectionPool) × (sent : List Sent) × (send_burst h has_snd_cb conn v
        ≡ ret (conn', sent))
      × IsFit conn'
      × (conn'.cursor ≡ conn.cursor)
unfolding send_burst
send_burst-IsFit h has_snd_cb conn v size some_room below readable =
    let count = burst 0 0 (take conn.pool_count v) in
    let (sent, called) = call_snd_cb-runs h has_snd_cb conn.session (take count v) readable in
    let (u', counted) = readable.1 in
    let left = conn.pool_count - count in
    let v' = sort_pool_by_arrival_inline (shift_down v count conn.pool_count) left in
    let kept : length v' ≡ length v =
      length-sort_pool (shift_down v count conn.pool_count) left
      ∙ length-shift_down v count conn.pool_count (omega arith) in
    elim (Bool-cases (leb count conn.pool_count)) [
      | inl within ↦ (
        record conn { pool_count = left; session = u'; pool = some v' },
        sent,
        rw (send_burst, called, within, counted) refl,
        (v', refl, kept ∙ size, some_room, omega arith),
        refl,
      )
      | inr beyond ↦ (
        record conn { pool_count = 0; pool = some v },
        sent,
        rw (send_burst, called, beyond) refl,
        (v, refl, size, some_room, omega arith),
        refl,
      )
    ]

process_session_node-IsFit :
    (h : Heap) (has_snd_cb : Bool) (here : Node) (conn : SessionConnectionPool)
    → IsFit conn
    → conn.pool_count < conn.pool_size
    → conn.pool_size < 2 ^ 32
    → IsReadable h conn.session
    → (conn' : SessionConnectionPool) × (sent : List Sent) × (process_session_node h has_snd_cb here
          conn
        ≡ ret (conn', sent))
      × IsFit conn'
      × (conn'.cursor ≡ conn.cursor)
unfolding process_session_node
process_session_node-IsFit h has_snd_cb here conn (v, at, size, some_room, below) room small
      readable =
    let v' = set v conn.pool_count here in
    let count' = (conn.pool_count + 1) % 2 ^ 32 in
    let stored : SessionConnectionPool = record conn { pool = some v'; pool_count = count' } in
    let size' : length v' ≡ conn.pool_size = length-set v conn.pool_count here ∙ size in
    let inside : ltb conn.pool_count (length v) ≡ true = ground arith in
    let fits : count' ≤ conn.pool_size = omega arith in
    let full =
      leb value_output_buffer_size (get_session_size value_output_buffer_size (take count' v')) in
    elim (Bool-cases (eqb_ℤ (node_cmp (some here) (own_node h conn.session)) (pos 0))) [
      | inr other ↦
          (conn, [], rw (process_session_node, other) refl, (v, at, size, some_room, below), refl)
      | inl same ↦ elim (Bool-cases (full && ltb 0 conn.pool_size)) [
        | inl enough ↦
            let (conn', sent, e, fit, kept) =
              send_burst-IsFit h has_snd_cb stored v' size' some_room fits readable in
            (conn', sent, rw (process_session_node, same, at, inside, enough) e, fit, kept)
        | inr few ↦ (
          stored,
          [],
          rw (process_session_node, same, at, inside, few) refl,
          (v', refl, size', some_room, fits),
          refl,
        )
      ]
    ]

grow-IsFit :
    (new : List Node) (conn : SessionConnectionPool)
    → IsFit conn
    → conn.pool_size < 2 ^ 31
    → conn.pool_size ≤ length new
    → (conn' : SessionConnectionPool) × (grow (some new) conn ≡ some conn')
      × IsFit conn'
      × (conn'.pool_count < conn'.pool_size)
      × (conn'.pool_size < 2 ^ 32)
      × (conn'.session ≡ conn.session)
      × (conn'.cursor ≡ conn.cursor)
unfolding grow
grow-IsFit new conn (v, at, size, some_room, below) small more =
    let size' = conn.pool_size * 2 % 2 ^ 32 in
    elim (Bool-cases (ltb conn.pool_size (conn.pool_count + 1))) [
      | inl full ↦ (
        record conn { pool_size = size'; pool = some (take size' (v ++ new)) },
        rw (grow, full, at) refl,
        (
          take size' (v ++ new),
          refl,
          omega (arith, length-take size' (v ++ new), length-append v new),
          omega arith,
          omega arith,
        ),
        ground arith,
        omega arith,
        refl,
        refl,
      )
      | inr room ↦ (
        conn,
        rw (grow, room) refl,
        (v, at, size, some_room, below),
        ground arith,
        omega arith,
        refl,
        refl,
      )
    ]

-- In a pool whose array has its size, with the nodes in use in it, and of fewer than 2 ^ 31 nodes: a
-- round whose realloc succeeds with enough new nodes stores, sends or passes by the node at the
-- cursor without an access out of the array, and leaves such a pool with the same cursor.
pub session_round-IsFit :
    (h : Heap) (has_snd_cb : Bool) (new : List Node) (here : Node) (conn : SessionConnectionPool)
    → IsFit conn
    → conn.pool_size < 2 ^ 31
    → conn.pool_size ≤ length new
    → IsReadable h conn.session
    → (conn' : SessionConnectionPool) × (sent : List Sent) × (session_round h has_snd_cb
          (some new)
          (ret here)
          conn
        ≡ ret (some (conn', sent)))
      × IsFit conn'
      × (conn'.cursor ≡ conn.cursor)
unfolding session_round
session_round-IsFit h has_snd_cb new here conn fit small more readable =
    let (grown, g, fit1, room, size, same, at) = grow-IsFit new conn fit small more in
    let (conn', sent, p, fit2, kept) =
      process_session_node-IsFit h has_snd_cb here grown fit1 room size
        (subst (IsReadable h) (sym same) readable) in
    (conn', sent, rw (session_round, g, p) refl, fit2, kept ∙ at)
