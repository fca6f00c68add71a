-- ===== src/Scheduler/Tests.antt =====
-- A scheduler of three slots in use.
use dmmr_orbit.Base.{ℕ, ◌≡◌, refl, some, List, [], ◌∷◌, ◌++◌, length}
use dmmr_orbit.Base.Sort.{IsSortedBy, with_key}
use dmmr_orbit.Session.Tests.{test_session}
use dmmr_orbit.Scheduler.{Scheduler, SchedulerConnection, zeroed, reorder_pass}
use dmmr_orbit.Scheduler.Order.{deadline_of, reorder_pass-stable}
use dmmr_orbit.Scheduler.Check.{due}

abbrev slot_of : ℕ → ℕ → SchedulerConnection
slot_of pool deadline = record {
  last_active_time_us = 0;
  realtime_deadline_us = deadline;
  deadline_us = deadline;
  session_ptr = some pool;
}

abbrev three : List SchedulerConnection
three = slot_of 1 300 ∷ slot_of 2 100 ∷ slot_of 3 200 ∷ []

abbrev in_order : List SchedulerConnection
in_order = slot_of 2 100 ∷ slot_of 3 200 ∷ slot_of 1 300 ∷ []

abbrev scheduler : List SchedulerConnection → Scheduler
scheduler used = record {
  scheduler_connection_size = 0x400;
  scheduler_connection_count = length used;
  slots = used ++ (zeroed ∷ []);
  run = 1;
  pools = λ p. test_session p;
}

reorder_pass-stable_example :
    (sorted : List SchedulerConnection) × (reorder_pass (scheduler three)
      ≡ record (scheduler three) { slots = sorted ++ (zeroed ∷ []) })
    × IsSortedBy deadline_of sorted
    × ((t : ℕ) → with_key deadline_of t sorted ≡ with_key deadline_of t three)
    × (length sorted ≡ length three)
reorder_pass-stable_example = reorder_pass-stable (scheduler three) three (zeroed ∷ []) refl refl

due_run : due 250 in_order ≡ some 2 ∷ some 3 ∷ []
due_run = refl
