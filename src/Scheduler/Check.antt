-- ===== src/Scheduler/Check.antt =====
-- src/scheduler/dmmr_scheduler.c: what a pass of `_check_and_send_thread` sends.
use dmmr_orbit.Base.{
  ℕ, suc, ◌+◌, ◌%◌, ◌^◌, leb, ◌==◌, if◌then◌else◌, List, [], ◌∷◌, map, refl, ◌≡◌, some, Option,
  true, false, arith, ret, fault, Bool, none,
}
use dmmr_orbit.Node.{Node}
use dmmr_orbit.Protocol.{get_session_pointer}
use dmmr_orbit.Session.{SessionConnectionPool}
use dmmr_orbit.Scheduler.{
  Scheduler, SchedulerConnection, Dispatch, flush_pool, session_of, sched_trigger_snd, check_slots,
  check_and_send_pass, delete_slot, sched_delete,
}

abbrev pub has_array : Option (List Node) → Bool
has_array none = false
has_array (some v) = true

-- A slot has a pool, among these, whose array is not null and whose endpoint is linked to another.
abbrev pub IsLive : (ℕ → SessionConnectionPool) → SchedulerConnection → Type 0
IsLive pools c =
    (p : ℕ) × (u : ℕ) × (c.session_ptr ≡ some p)
    × (get_session_pointer (some (pools p).session) ≡ ret (some u))
    × (has_array (pools p).pool ≡ true)

-- The endpoints are the same, and the same arrays are null.
abbrev pub SamePools : (ℕ → SessionConnectionPool) → (ℕ → SessionConnectionPool) → Type 0
SamePools f g =
    (q : ℕ) → ((f q).session ≡ (g q).session) × (has_array (f q).pool ≡ has_array (g q).pool)

-- The pools of the slots whose deadline has come.
abbrev pub due : ℕ → List SchedulerConnection → List (Option ℕ)
due limit [] = []
due limit (c ∷ cs) =
    if leb c.realtime_deadline_us limit then c.session_ptr ∷ due limit cs else due limit cs

abbrev pub pools_of : List Dispatch → List (Option ℕ)
pools_of ds = map (λ d. some d.pool) ds

-- When the first slot's deadline has come and its pool's array is null, with a size that is not 0, as a
-- failed realloc of the session leaves it, the pass writes through the null pointer.
pub check_and_send_pass_faults :
    (blank : Node) (now preemptive p u n : ℕ) (s : Scheduler) (c : SchedulerConnection)
    (cs : List SchedulerConnection)
    → s.slots ≡ c ∷ cs
    → s.scheduler_connection_count ≡ suc n
    → leb c.realtime_deadline_us ((now + preemptive) % 2 ^ 64) ≡ true
    → c.session_ptr ≡ some p
    → get_session_pointer (some (s.pools p).session) ≡ ret (some u)
    → (s.pools p).pool ≡ none
    → ((s.pools p).pool_size == 0) ≡ false
    → check_and_send_pass blank now preemptive s ≡ fault
unfolding check_and_send_pass check_slots sched_trigger_snd
check_and_send_pass_faults blank now preemptive p u n s c cs e k come own l null sized =
    rw
      (
        check_and_send_pass, e, k, check_slots, come, sched_trigger_snd, session_of, own, l,
        flush_pool,
      )
      (rw (own, null, sized) refl)

-- The slot that is deleted is cleared where it stands. When it is the first one, the next pass,
-- whatever the time, takes its deadline of 0 for one that has come and reads its null pool.
pub sched_delete-check_faults :
    (blank : Node) (now preemptive p n : ℕ) (s : Scheduler) (c : SchedulerConnection)
    (cs : List SchedulerConnection)
    → s.slots ≡ c ∷ cs
    → s.scheduler_connection_count ≡ suc n
    → c.session_ptr ≡ some p
    → check_and_send_pass blank now preemptive (sched_delete (some p) s) ≡ fault
unfolding check_and_send_pass sched_delete delete_slot check_slots sched_trigger_snd
sched_delete-check_faults blank now preemptive p n s c cs e k own =
    let hit : (p == p) ≡ true = ground arith in
    let zero_due : leb 0 ((now + preemptive) % 2 ^ 64) ≡ true = ground arith in
    rw (sched_delete, check_and_send_pass, e, k, delete_slot, own, hit, check_slots, zero_due) refl
