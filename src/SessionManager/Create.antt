-- ===== src/SessionManager/Create.antt =====
-- The construction of the session manager of src/session/dmmr_session_connection_manager.c.
use dmmr_orbit.Base.{
  if◌then◌else◌, ◌&&◌, Bool, Bool-cases, true, false, Run, ret, fault, length, replicate, ◌≡◌, refl,
  inl, inr,
}
use dmmr_orbit.Session.{SessionConnectionPool, Recno, recno_size, start_session_connection}
use dmmr_orbit.Session.Table.{stop_session_connection_fault}
use dmmr_orbit.SessionManager.{ManagerState, Created, rollback, new_session_connection_manager}

-- The four conditions of a construction.
abbrev pub all_there : Bool → Bool → Bool → Bool → Bool
all_there cb sched sock made = cb && (sched && (sock && made))

-- What a construction gives: with the three components and memory, the manager, with the sending
-- callback set and a table of zero bytes. Otherwise a null pointer and no change when no manager was
-- made before; when one was, the rollback reads past the table of sessions.
abbrev pub CreateOutcome :
    SessionConnectionPool → Bool → ManagerState → Recno → Run Created → Type 0
CreateOutcome zeroed complete s recs r =
    if complete
    then (r
        ≡ ret (
          true,
          record { circle_buffer = true; sched = true; sock = true; this = true; snd_cb = true },
          replicate recno_size (zeroed, zeroed),
        ))
    else (if s.this then r ≡ fault else r ≡ ret (false, s, recs))

rollback_lem :
    (zeroed : SessionConnectionPool) (s : ManagerState) (recs : Recno)
    → length recs ≡ recno_size
    → CreateOutcome zeroed false s recs (rollback zeroed s recs)
rollback_lem zeroed s recs size = elim (Bool-cases s.this) [
  | inl before ↦ rw (before, stop_session_connection_fault zeroed recs size) refl
  | inr fresh ↦ rw fresh refl
]

-- A construction on a table of 0xFFFF records ends in the one of these ways that its conditions call
-- for.
pub new_session_connection_manager_lem :
    (zeroed : SessionConnectionPool) (cb sched sock made : Bool) (s : ManagerState) (recs : Recno)
    → length recs ≡ recno_size
    → CreateOutcome zeroed
        (all_there cb sched sock made)
        s
        recs
        (new_session_connection_manager zeroed cb sched sock made s recs)
unfolding new_session_connection_manager start_session_connection
new_session_connection_manager_lem zeroed false sched sock made s recs size =
    rollback_lem zeroed s recs size
new_session_connection_manager_lem zeroed true false sock made s recs size =
    rollback_lem zeroed s recs size
new_session_connection_manager_lem zeroed true true false made s recs size =
    rollback_lem zeroed s recs size
new_session_connection_manager_lem zeroed true true true false s recs size =
    rollback_lem zeroed s recs size
new_session_connection_manager_lem zeroed true true true true s recs size = refl
