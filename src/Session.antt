-- ===== src/Session.antt =====
-- src/session/session_connection.c: the table of sessions, and the thread of a session, which
-- collects the nodes of its endpoint and sends them on in bursts.
-- A pool's critical sections are taken whole, so its mutex has no field. The array behind `pool` is
-- a list of `pool_size` nodes; a null pointer is `none`.
pub mod Sort
pub mod Size
pub mod Process
pub mod Table
pub mod Worker
pub mod Follow
pub mod Tests
use dmmr_orbit.Base.{
  ℕ, zero, suc, ◌+◌, ◌-◌, ◌*◌, ◌%◌, ◌^◌, ltb, leb, ◌==◌, if◌then◌else◌, ◌&&◌, ◌||◌, not, Bool, true,
  false, Option, none, some, List, [], ◌∷◌, ◌++◌, Run, ret, fault, hang, ◌>>=◌, get_elem?, set,
  take, drop, length, replicate,
}
use mathlib.Core.Option
use dmmr_orbit.Base.Int.{ℤ, pos, eof, eqb_ℤ}
use dmmr_orbit.Node.{Node, value_output_buffer_size}
use dmmr_orbit.Node.Cmp.{node_cmp}
use dmmr_orbit.Protocol.{
  Proto, Endpoint, Heap, get_session_pointer, get_session_node, update_session_counter,
  get_session_cfg, proto_arr_tcp, proto_arr_udp,
}
use dmmr_orbit.CircleBuffer.{Position, get_current_node}

-- `struct session_connection_pool`.
pub record SessionConnectionPool : Type 0 where
  pub run : ℕ
  pub port : ℕ
  pub linked_port : ℕ
  pub pool_size : ℕ
  pub pool_count : ℕ
  pub pool : Option (List Node)
  pub cursor : Option Position
  pub session : Endpoint

-- The inner loop of `sort_pool_by_arrival_inline`: `key` slides down from index `j`.
unfoldable pub slide : Node → List Node → ℕ → List Node
slide key v zero = set v 0 key
slide key v (suc j) = elim (get_elem? v j) [
  | none ↦ v
  | some x ↦ if ltb key.arrival x.arrival then slide key (set v (suc j) x) j else set v (suc j) key
]

-- The rounds of the outer loop from index `i` on.
unfoldable pub sort_rounds : ℕ → ℕ → List Node → List Node
unfolding slide
sort_rounds zero i v = v
sort_rounds (suc n) i v = elim (get_elem? v i) [
  | none ↦ v
  | some key ↦ sort_rounds n (i + 1) (slide key v i)
]

-- The first `c` nodes of the array are sorted in place. An index past the array is not met while
-- `c` is at most its size.
unfoldable pub sort_pool_by_arrival_inline : List Node → ℕ → List Node
unfolding sort_rounds
sort_pool_by_arrival_inline v c = if ltb c 2 then v else sort_rounds (c - 1) 1 v

-- The loop of `get_session_size`, over the nodes in use; `total` is a `uint16_t`.
unfoldable pub size_loop : ℕ → ℕ → List Node → ℕ
size_loop max total [] = total
size_loop max total (n ∷ ns) =
    let total' = (total + n.value_size) % 2 ^ 16 in
    let rest = size_loop max total' ns in if leb max total' then total' else rest

unfoldable pub get_session_size : ℕ → List Node → ℕ
unfolding size_loop
get_session_size max nodes = size_loop max 0 nodes

-- How many nodes a burst takes: `do { siz += …; ++count; } while (siz <= … && ++n < n0)`.
unfoldable pub burst : ℕ → ℕ → List Node → ℕ
burst siz count [] = count
burst siz count (n ∷ ns) =
    let siz' = (siz + n.value_size) % 2 ^ 32 in
    let rest = burst siz' (count + 1) ns in
    if leb siz' value_output_buffer_size then rest else count + 1

-- A call of `snd_cb`: the linked endpoint and the nodes that are sent.
pub record Sent : Type 0 where
  pub target : Option ℕ
  pub nodes : List Node

-- `__bcpy(pool + count, pool, (pool_count - count) * sizeof(struct node))` on the array: a move
-- of whole nodes to its front.
abbrev pub shift_down : List Node → ℕ → ℕ → List Node
shift_down v count pool_count =
    take (pool_count - count) (drop count v) ++ drop (pool_count - count) v

unfoldable pub call_snd_cb : Bool → Endpoint → List Node → Run (List Sent)
call_snd_cb has_snd_cb session nodes =
    if has_snd_cb
    then (get_session_pointer (some session) >>= λ u.
        ret (record { target = u; nodes = nodes } ∷ []))
    else ret []

-- The part of `process_session_node` that sends. `has_snd_cb` says whether `set_snd_cb` was called.
unfoldable pub send_burst :
    Heap → Bool → SessionConnectionPool → List Node → Run (SessionConnectionPool × List Sent)
unfolding burst sort_pool_by_arrival_inline call_snd_cb
send_burst h has_snd_cb conn v = do
  let count = burst 0 0 (take conn.pool_count v)
  sent ← call_snd_cb has_snd_cb conn.session (take count v)
  if leb count conn.pool_count
      then (do
        let left = conn.pool_count - count
        session ← update_session_counter h conn.session
        ret (
          record conn {
            pool_count = left;
            session = session;
            pool = some (sort_pool_by_arrival_inline (shift_down v count conn.pool_count) left);
          },
          sent,
        ))
      else ret (record conn { pool_count = 0; pool = some v }, sent)

-- The node that the endpoint's pointer leads to.
abbrev pub own_node : Heap → Endpoint → Option Node
own_node h u = Option.map (λ p. h.nodes p) (get_session_node u)

-- `here` is the node at the cursor.
unfoldable pub process_session_node :
    Heap → Bool → Node → SessionConnectionPool → Run (SessionConnectionPool × List Sent)
unfolding get_session_size send_burst
process_session_node h has_snd_cb here conn =
    if eqb_ℤ (node_cmp (some here) (own_node h conn.session)) (pos 0)
    then elim conn.pool [
      | none ↦ fault
      | some v ↦
          if ltb conn.pool_count (length v)
          then (let v' = set v conn.pool_count here in
              let count' = (conn.pool_count + 1) % 2 ^ 32 in
              let conn' = record conn { pool = some v'; pool_count = count' } in
              if leb value_output_buffer_size
                  (get_session_size value_output_buffer_size (take count' v'))
                && ltb 0 conn.pool_size
              then send_burst h has_snd_cb conn' v'
              else ret (conn', []))
          else fault
    ]
    else ret (conn, [])

-- The growth at the head of a round of `session_worker`. `fresh` is what the realloc'ed array holds
-- behind the old nodes; `none` is a failed realloc, which ends the thread.
unfoldable pub grow : Option (List Node) → SessionConnectionPool → Option SessionConnectionPool
grow fresh conn =
    if ltb conn.pool_size (conn.pool_count + 1)
    then (let size' = conn.pool_size * 2 % 2 ^ 32 in
        elim fresh [
          | none ↦ none
          | some new ↦ elim conn.pool [
            | none ↦ some (record conn { pool_size = size'; pool = some (take size' new) })
            | some v ↦ some (record conn { pool_size = size'; pool = some (take size' (v ++ new)) })
          ]
        ])
    else some conn

-- A round of `session_worker` up to its wait: the growth and then `process_session_node`; `here` is
-- the read of the node at the cursor. `none` ends the thread.
unfoldable pub session_round :
    Heap
    → Bool
    → Option (List Node)
    → Run Node
    → SessionConnectionPool
    → Run (Option (SessionConnectionPool × List Sent))
session_round h has_snd_cb fresh here conn = elim (grow fresh conn) [
  | none ↦ ret none
  | some conn' ↦ here >>= λ n. process_session_node h has_snd_cb n conn' >>= λ r. ret (some r)
]

-- `get_recno_slot`: the array has 0xFFFF records of two pools.
abbrev pub recno_size : ℕ
recno_size = 0xFFFF

unfoldable pub get_recno_slot : ℕ → ℕ → Run (ℕ × ℕ)
get_recno_slot port proto = if ltb port recno_size && ltb proto 2 then ret (port, proto) else fault

-- The pool of an endpoint, by its place in the table. `port` and `arr` hold what the stack held.
unfoldable pub get_session : Heap → ℕ → ℕ → Option Endpoint → Run (Option (ℕ × ℕ))
unfolding get_recno_slot
get_session h port arr none = ret none
get_session h port arr (some u) = do
  (port', arr') ← get_session_cfg h u port arr
  if ltb port' 0x10000 && (arr' == proto_arr_tcp || arr' == proto_arr_udp)
      then (get_recno_slot port' arr' >>= λ place. ret (some place))
      else ret none

-- `buffer` is what calloc returned, `created` what `pthread_create` returns, and the fuel counts the
-- calls of `get_current_node`.
unfoldable pub insert_session :
    ℕ
    → Bool
    → Option (List Node)
    → ℤ
    → Option SessionConnectionPool
    → Run (ℤ × Option SessionConnectionPool)
insert_session fuel has_circle_buffer buffer created none = ret (eof, none)
insert_session fuel has_circle_buffer buffer created (some session) =
    if has_circle_buffer
    then elim buffer [
      | none ↦ ret (eof, some (record session { pool = none }))
      | some v ↦ get_current_node fuel >>= λ cursor. ret (
        created,
        some (record session {
          pool = some v;
          pool_size = 0x400;
          pool_count = 0;
          run = 1;
          cursor = cursor;
        }),
      )
    ]
    else ret (eof, some session)

-- The pool is freed and cleared; `zeroed` is a pool of zero bytes.
unfoldable pub delete_session :
    SessionConnectionPool → Option SessionConnectionPool → Option SessionConnectionPool
delete_session zeroed none = none
delete_session zeroed (some p) = some zeroed

-- The records of the table from a port on, each with the pools of both protocols.
abbrev pub Recno : Type 0
Recno = List (SessionConnectionPool × SessionConnectionPool)

abbrev pub delete_if_used : SessionConnectionPool → SessionConnectionPool → SessionConnectionPool
delete_if_used zeroed p = if p.port == 0 then p else zeroed

unfoldable pub stop_rounds : SessionConnectionPool → ℕ → Recno → Run Recno
stop_rounds zeroed zero recs = ret recs
stop_rounds zeroed (suc n) [] = fault
stop_rounds zeroed (suc n) ((udp, tcp) ∷ recs) = stop_rounds zeroed n recs >>= λ recs'.
    ret ((delete_if_used zeroed udp, delete_if_used zeroed tcp) ∷ recs')

-- The loop runs to `recno + 0x10000`.
unfoldable pub stop_session_connection : SessionConnectionPool → Recno → Run Recno
unfolding stop_rounds
stop_session_connection zeroed recs = stop_rounds zeroed 0x10000 recs

-- `start_session_connection`: the result, and the table of zero bytes.
unfoldable pub start_session_connection : SessionConnectionPool → ℤ × Recno
start_session_connection zeroed = (pos 0, replicate recno_size (zeroed, zeroed))
