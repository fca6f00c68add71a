-- ===== src/Scheduler/Slots.antt =====
-- src/scheduler/dmmr_scheduler.c: the slots that `get_scheduler_connection` hands out.
use dmmr_orbit.Base.{
  ℕ, ◌+◌, ◌*◌, ◌≤◌, ◌<◌, leb, Bool-cases, none, some, List, [], ◌∷◌, ◌++◌, length, take,
  length-take, length-append, ◌≡◌, refl, ◌⊎◌, inl, inr, arith,
}
use dmmr_orbit.Scheduler.{
  Scheduler, SchedulerConnection, is_free_slot, find_free_slot, get_scheduler_connection,
}

find_free_slot-below :
    (s : Scheduler) (i : ℕ) (cs : List SchedulerConnection)
    → ((k : ℕ) × (find_free_slot s i cs ≡ some k) × (k < i + length cs))
      ⊎ (find_free_slot s i cs ≡ none)
unfolding find_free_slot
find_free_slot-below s i [] = inr refl
find_free_slot-below s i (c ∷ cs) = elim (Bool-cases (is_free_slot s c)) [
  | inl free ↦ inl (i, rw (find_free_slot, free) refl, omega arith)
  | inr taken ↦ elim (find_free_slot-below s (i + 1) cs) [
    | inl (k, e, below) ↦ inl (k, rw (find_free_slot, taken) e, omega arith)
    | inr e ↦ inr (rw (find_free_slot, taken) e)
  ]
]

-- The slots in use fit the array, and the size is the array's.
pub record IsWhole (s : Scheduler) : Type 0 where
  pub used : s.scheduler_connection_count ≤ s.scheduler_connection_size
  pub size : length s.slots ≡ s.scheduler_connection_size
  pub some_room : 0 < s.scheduler_connection_size

-- From a whole array, where a realloc succeeds and adds as many slots as there were, the slot that
-- is handed out is one of the slots in use afterwards, and the array is whole again.
pub get_scheduler_connection_lem :
    (fresh : List SchedulerConnection) (s : Scheduler)
    → IsWhole s
    → length fresh ≡ s.scheduler_connection_size
    → (i : ℕ) × (s' : Scheduler) × (get_scheduler_connection (some fresh) s ≡ (some i, s'))
      × (i < s'.scheduler_connection_count)
      × IsWhole s'
unfolding get_scheduler_connection
get_scheduler_connection_lem fresh s w more =
    elim (find_free_slot-below s 0 (take s.scheduler_connection_count s.slots)) [
      | inl (k, e, below) ↦ (
        k,
        s,
        rw (get_scheduler_connection, e) refl,
        omega (arith, length-take s.scheduler_connection_count s.slots, below),
        w,
      )
      | inr e ↦ elim (Bool-cases (leb s.scheduler_connection_size s.scheduler_connection_count)) [
        | inl full ↦ (
          s.scheduler_connection_count,
          record s {
            scheduler_connection_count = s.scheduler_connection_count + 1;
            scheduler_connection_size = s.scheduler_connection_size * 2;
            slots = take (s.scheduler_connection_size * 2) (s.slots ++ fresh);
          },
          rw (get_scheduler_connection, e, full) refl,
          omega arith,
          record {
            used = omega (arith, w.used, w.some_room);
            size = omega (
              arith,
              length-take (s.scheduler_connection_size * 2) (s.slots ++ fresh),
              length-append s.slots fresh,
              w.size,
              more,
            );
            some_room = omega (arith, w.some_room);
          },
        )
        | inr room ↦
            let below : s.scheduler_connection_count < s.scheduler_connection_size = ground arith in
            (
              s.scheduler_connection_count,
              record s { scheduler_connection_count = s.scheduler_connection_count + 1 },
              rw (get_scheduler_connection, e, room) refl,
              omega arith,
              record { used = omega arith; size = w.size; some_room = w.some_room },
            )
      ]
    ]
