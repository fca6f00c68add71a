-- ===== src/Session/Table.antt =====
-- src/session/session_connection.c: the table of sessions by port, which is one record short.
use dmmr_orbit.Base.{
  ℕ, zero, suc, ◌<◌, ltb, if◌then◌else◌, Bool-cases, List, [], ◌∷◌, length, refl, ◌≡◌, some, inl,
  inr, true, arith, ret, fault, hang,
}
use dmmr_orbit.Base.Int.{ℤ}
use dmmr_orbit.Node.{Node}
use dmmr_orbit.Protocol.{Heap, Endpoint, proto_tcp, proto_arr_tcp, get_session_cfg}
use dmmr_orbit.CircleBuffer.Cursor.{get_current_node_hangs}
use dmmr_orbit.Session.{
  SessionConnectionPool, get_recno_slot, get_session, recno_size, insert_session, Recno,
  stop_rounds, stop_session_connection,
}

-- For a TCP endpoint with a node, the lookup returns the pool of the node's port, except at port
-- 0xFFFF and above: there it reads past the table.
pub get_session_lem :
    (h : Heap) (port arr n : ℕ) (u : Endpoint)
    → u.proto ≡ proto_tcp
    → u.node ≡ some n
    → (h.nodes n).port < 0x10000
    → get_session h port arr (some u) ≡ (
        if ltb (h.nodes n).port 0xFFFF then ret (some ((h.nodes n).port, proto_arr_tcp)) else fault)
unfolding get_session get_session_cfg get_recno_slot
get_session_lem h port arr n u p e bound =
    let within : ltb (h.nodes n).port 0x10000 ≡ true = ground arith in
    rw (get_session, get_session_cfg, p, e, within)
      (elim (Bool-cases (ltb (h.nodes n).port 0xFFFF)) [
        | inl low ↦ rw (get_recno_slot, low) refl
        | inr top ↦ rw (get_recno_slot, top) refl
      ])

-- With a circle buffer, a pool and memory for its nodes, no number of calls is enough for
-- `insert_session` to return.
pub insert_session_hangs :
    (fuel : ℕ) (v : List Node) (created : ℤ) (session : SessionConnectionPool)
    → insert_session fuel true (some v) created (some session) ≡ hang
unfolding insert_session
insert_session_hangs fuel v created session = rw (insert_session, get_current_node_hangs fuel) refl

stop_rounds_fault :
    (n : ℕ) (zeroed : SessionConnectionPool) (recs : Recno)
    → length recs < n
    → stop_rounds zeroed n recs ≡ fault
unfolding stop_rounds
stop_rounds_fault zero zeroed recs h = ground arith
stop_rounds_fault (suc n) zeroed [] h = refl
stop_rounds_fault (suc n) zeroed ((udp, tcp) ∷ recs) h =
    rw (stop_rounds, stop_rounds_fault n zeroed recs (omega arith)) refl

-- On a table of 0xFFFF records, whatever they hold, stopping the sessions reads past the table.
pub stop_session_connection_fault :
    (zeroed : SessionConnectionPool) (recs : Recno)
    → length recs ≡ recno_size
    → stop_session_connection zeroed recs ≡ fault
unfolding stop_session_connection
stop_session_connection_fault zeroed recs h = stop_rounds_fault 0x10000 zeroed recs (omega arith)
