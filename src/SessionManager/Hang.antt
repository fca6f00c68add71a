-- ===== src/SessionManager/Hang.antt =====
-- The callbacks of src/plugin/dmmr_trunk_plugin.c on the manager of
-- src/session/dmmr_session_connection_manager.c.
use dmmr_orbit.Base.{ℕ, ◌<◌, true, false, some, List, hang, ◌≡◌, ◌≢◌, refl}
use dmmr_orbit.Node.{Node}
use dmmr_orbit.Protocol.{Proto, proto_none}
use dmmr_orbit.Session.Table.{insert_session_hangs}
use dmmr_orbit.Plugin.{
  arr_of, on_connect_connection_cb, on_dispatch_connection_cb, on_acception_connection_cb,
}
use dmmr_orbit.Plugin.Attach.{attach_input_lem}
use dmmr_orbit.SessionManager.{World, Surroundings, session_insert_session, session_manager}

insert_hangs :
    (e : Surroundings) (place : ℕ × ℕ) (w : World) (v : List Node)
    → e.has_circle_buffer ≡ true
    → e.buffer ≡ some v
    → session_insert_session e (some place) w ≡ hang
unfolding session_insert_session
insert_hangs e place w v has made =
    rw
      (
        session_insert_session,
        has,
        made,
        insert_session_hangs e.fuel v e.created (w.table.pools place),
      )
      refl

-- With a circle buffer and memory for the pool, none of the callbacks for an input with a node whose
-- port is below 0xFFFF returns, however many calls of `get_current_node` are made: no session reaches
-- the scheduler, and no accepted connection is dispatched.
pub callbacks_hang :
    (e : Surroundings) (w : World) (v : List Node) (proto : Proto) (input n : ℕ)
    → e.has_circle_buffer ≡ true
    → e.buffer ≡ some v
    → proto ≢ proto_none
    → (w.table.heap.endpoints input).node ≡ some n
    → (w.table.heap.nodes n).port < 0xFFFF
    → (on_connect_connection_cb (session_manager e) proto (some input) w ≡ hang)
      × (on_dispatch_connection_cb (session_manager e) proto (some input) w ≡ hang)
      × (on_acception_connection_cb (session_manager e) proto (some input) w ≡ hang)
unfolding on_connect_connection_cb on_dispatch_connection_cb on_acception_connection_cb
callbacks_hang e w v proto input n has made real node low =
    let (w1, linked, tied) =
      attach_input_lem (session_manager e) true proto input n w real node low in
    let (w2, alone, tied') =
      attach_input_lem (session_manager e) false proto input n w real node low in
    let place : ℕ × ℕ = ((w.table.heap.nodes n).port, arr_of proto) in
    let stuck : (w' : World) → session_insert_session e (some place) w' ≡ hang =
      λ w'. insert_hangs e place w' v has made in
    (
      rw (on_connect_connection_cb, linked, stuck w1) refl,
      rw (on_dispatch_connection_cb, linked, stuck w1) refl,
      rw (on_acception_connection_cb, alone, stuck w2) refl,
    )
