-- ===== src/SessionManager.antt =====
-- src/session/dmmr_session_connection_manager.c: the functions that the plugin calls, which forward
-- to the sessions, the scheduler and the sockets, and the manager's construction with its rollback.
-- `World` is the state behind them. A pool of the table has its place, a port and a protocol, and
-- the scheduler names it by one number. A component's pointer is a flag, true where it is not null.
pub mod Create
pub mod Hang
pub mod Tests
use dmmr_orbit.Base.{
  ℕ, ◌+◌, ◌*◌, ◌/◌, ◌%◌, ◌==◌, if◌then◌else◌, ◌&&◌, ◌||◌, not, Bool, true, false, Option, none,
  some, List, [], ◌∷◌, Run, ret, fault, ◌>>=◌, ◌≡◌, refl,
}
use dmmr_orbit.Base.Int.{ℤ, pos, eof, eqb_ℤ}
use dmmr_orbit.Node.{Node}
use dmmr_orbit.Protocol.{Endpoint}
use dmmr_orbit.Session.{
  SessionConnectionPool, insert_session, delete_session, get_session, Recno,
  start_session_connection, stop_session_connection,
}
use dmmr_orbit.Scheduler.{Scheduler, SchedulerConnection, sched_insert, sched_delete}
use dmmr_orbit.Socket.{Pool}
use dmmr_orbit.Socket.Service.{Callbacks}
use dmmr_orbit.Socket.Dispatch.{System, start_accept_from_uri, create_dispatcher_from_uri}
use dmmr_orbit.Plugin.{Table, SessionManager, write_pool}

pub record World : Type 0 where
  pub table : Table
  pub sched : Scheduler
  pub cap : Pool Endpoint

-- What surrounds the calls: what the system returns to them, and the two URIs of the configuration.
-- The fuel counts the calls of `get_current_node`.
pub record Surroundings : Type 0 where
  pub fuel : ℕ
  pub has_circle_buffer : Bool
  pub buffer : Option (List Node)
  pub created : ℤ
  pub deadline : ℕ
  pub fresh_slots : Option (List SchedulerConnection)
  pub sys : System
  pub garbage : ℕ
  pub udp_cbs : Callbacks
  pub tcp_cbs : Callbacks
  pub trunk_accept_uri : Option (List ℕ)
  pub trunk_dispatch_uri : Option (List ℕ)
  pub zeroed : SessionConnectionPool

abbrev pub name_of : ℕ × ℕ → ℕ
name_of (port, proto) = port * 2 + proto

-- The scheduler with the pools of the table.
abbrev pub with_pools : World → Scheduler
with_pools w = let s = w.sched in record s { pools = λ k. w.table.pools (k / 2, k % 2) }

-- A null pool gives EOF; a place of the table is never null.
unfoldable pub session_insert_session : Surroundings → Option (ℕ × ℕ) → World → Run (ℤ × World)
session_insert_session e none w = ret (eof, w)
session_insert_session e (some place) w =
    insert_session e.fuel e.has_circle_buffer e.buffer e.created (some (w.table.pools place))
    >>= λ (status, p). elim p [
      | none ↦ ret (status, w)
      | some p' ↦ ret (status, record w { table = write_pool place p' w.table })
    ]

unfoldable pub session_delete_session : Option (ℕ × ℕ) → World → World
session_delete_session session w = w

-- `port` and `arr` of `get_session` hold what the stack held.
unfoldable pub session_get_session : Surroundings → Option ℕ → World → Run (Option (ℕ × ℕ))
session_get_session e none w = ret none
session_get_session e (some u) w =
    get_session w.table.heap e.garbage e.garbage (some (w.table.heap.endpoints u))

unfoldable pub socket_start_accept_from_uri : Surroundings → World → Run (ℤ × World)
socket_start_accept_from_uri e w =
    start_accept_from_uri e.sys e.trunk_accept_uri e.garbage e.udp_cbs e.tcp_cbs w.cap
    >>= λ (status, cap). ret (status, record w { cap = cap })

unfoldable pub socket_create_dispatcher_from_uri : Surroundings → World → Run (ℤ × World)
socket_create_dispatcher_from_uri e w =
    create_dispatcher_from_uri e.sys e.trunk_dispatch_uri e.garbage e.tcp_cbs w.cap
    >>= λ (status, cap). ret (status, record w { cap = cap })

unfoldable pub manager_sched_insert : Surroundings → Option (ℕ × ℕ) → World → Run (ℤ × World)
manager_sched_insert e none w = ret (eof, w)
manager_sched_insert e (some place) w =
    sched_insert e.deadline e.fresh_slots (some (name_of place)) (with_pools w) >>= λ (status, s).
    ret (status, record w { sched = s })

unfoldable pub manager_sched_delete : Option (ℕ × ℕ) → World → World
manager_sched_delete none w = record w { sched = sched_delete none (with_pools w) }
manager_sched_delete (some place) w = record w {
  sched = sched_delete (some (name_of place)) (with_pools w);
}

-- The pool of an endpoint leaves the scheduler and is freed and cleared.
unfoldable pub sm_delete_session : Surroundings → Option ℕ → World → Run World
sm_delete_session e none w = ret w
sm_delete_session e (some u) w = session_get_session e (some u) w >>= λ found. elim found [
  | none ↦ ret w
  | some place ↦
      let w' = manager_sched_delete (some place) w in
      elim (delete_session e.zeroed (some (w'.table.pools place))) [
        | none ↦ ret w'
        | some p ↦ ret (record w' { table = write_pool place p w'.table })
      ]
]

-- The connection and the closing of a trunk are not written yet.
abbrev pub socket_connect : Option (List ℕ) → ℤ
socket_connect uri = eof

-- The manager that the plugin is given.
abbrev pub session_manager : Surroundings → SessionManager World
session_manager e = record {
  table = λ w. w.table;
  with_table = λ t w. record w { table = t };
  table-with_table = λ t w. refl;
  insert_session = λ place w. session_insert_session e (some place) w;
  insert_scheduler = λ place w. manager_sched_insert e (some place) w;
  create_dispatcher = λ w. socket_create_dispatcher_from_uri e w;
  start_accept = λ w. socket_start_accept_from_uri e w;
  sm_delete_session = λ u w. sm_delete_session e u w;
}

-- The static pointers of the file, and the callback that the sessions send with.
pub record ManagerState : Type 0 where
  pub circle_buffer : Bool
  pub sched : Bool
  pub sock : Bool
  pub this : Bool
  pub snd_cb : Bool

-- What the function returns, false for null, with the statics and the table of sessions.
abbrev pub Created : Type 0
Created = Bool × ManagerState × Recno

-- The RB_CATCH block.
abbrev pub rollback : SessionConnectionPool → ManagerState → Recno → Run Created
rollback zeroed s recs =
    if s.this
    then (stop_session_connection zeroed recs >>= λ recs'.
        ret (false, record s { this = false }, recs'))
    else ret (false, s, recs)

unfoldable pub new_session_connection_manager :
    SessionConnectionPool → Bool → Bool → Bool → Bool → ManagerState → Recno → Run Created
new_session_connection_manager zeroed cb sched sock made s recs =
    if not cb || (not sched || not sock)
    then rollback zeroed s recs
    else if not made
    then rollback zeroed s recs
    else (let s' : ManagerState = record {
      circle_buffer = cb;
      sched = sched;
      sock = sock;
      this = true;
      snd_cb = s.snd_cb;
    } in
        let (started, cleared) = start_session_connection zeroed in
        if not (eqb_ℤ started (pos 0))
        then rollback zeroed s' cleared
        else ret (true, record s' { snd_cb = true }, cleared))
