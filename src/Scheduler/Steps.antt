-- ===== src/Scheduler/Steps.antt =====
-- src/scheduler/dmmr_scheduler.c: the passes of its two threads and the calls from outside, in any
-- order of whole steps. What holds the mutex is one step, and so is a call that writes one slot without
-- it. Two of these are finer in the source: `get_scheduler_connection` reads the array and its count
-- before it takes the mutex, and `sched_insert` writes through a pointer behind the unlock, which a
-- realloc of another call may have freed. The orders between those halves are left out.
use mathlib.Core.Path.{subst}
use dmmr_orbit.Base.{
  ℕ, suc, ◌+◌, ◌%◌, ◌^◌, leb, Bool-cases, Option, Option-cases, some, List, [], ◌∷◌, ◌++◌,
  get_elem?, length, length-append, length-take, length-set, take-append-drop, take, drop, set, ret,
  OnRet, OnRet-any, OnRet-bind, Run-cases, ◌≡◌, refl, sym, ap, ◌∙◌, inl, inr, arith,
}
use dmmr_orbit.Base.Int.{ℤ, pos, eqb_ℤ}
use dmmr_orbit.Node.{Node}
use dmmr_orbit.Scheduler.{
  Scheduler, SchedulerConnection, Dispatch, session_of, clear_pool, flush_pool, sched_trigger_snd,
  check_slots, check_and_send_pass, reorder_pass, delete_slot, same_pointer, sched_delete,
  get_scheduler_connection, write_connection, sched_snd, sched_start,
}
use dmmr_orbit.Session.{SessionConnectionPool}
use dmmr_orbit.Scheduler.Order.{reorder_pass-stable}
use dmmr_orbit.Scheduler.Slots.{IsWhole, get_scheduler_connection_lem}

pub data Step : Scheduler → Scheduler → Type 0 where
  reordered : {s : Scheduler} → Step s (reorder_pass s)
  checked :
      {s s' : Scheduler} (blank : Node) (now preemptive : ℕ) (ds : List Dispatch)
      → check_and_send_pass blank now preemptive s ≡ ret (s', ds)
      → Step s s'
  -- The first half of `sched_insert`. A realloc doubles the array.
  taken :
      {s s' : Scheduler} (fresh : List SchedulerConnection) (slot : Option ℕ)
      → length fresh ≡ s.scheduler_connection_size
      → get_scheduler_connection (some fresh) s ≡ (slot, s')
      → Step s s'
  -- The second half, without the mutex: the array has not moved since the slot was handed out.
  written :
      {s s' : Scheduler} (deadline p i : ℕ) (status : ℤ)
      → write_connection deadline p (some i, s) ≡ ret (status, s')
      → Step s s'
  -- What the threads of the sessions do to their pools.
  pooled : {s : Scheduler} (pools : ℕ → SessionConnectionPool) → Step s (record s { pools = pools })
  -- `sched_snd` and `sched_trigger_snd` on a slot of the array.
  sent :
      {s s' : Scheduler} (moved : Node) (n i : ℕ) (c c' : SchedulerConnection) (ds : List Dispatch)
      → get_elem? s.slots i ≡ some c
      → sched_snd moved n s c ≡ ret (s', c', ds)
      → Step s (record s' { slots = set s'.slots i c' })
  triggered :
      {s s' : Scheduler} (blank : Node) (i : ℕ) (c c' : SchedulerConnection) (ds : List Dispatch)
      → get_elem? s.slots i ≡ some c
      → sched_trigger_snd blank s c ≡ ret (s', c', ds)
      → Step s (record s' { slots = set s'.slots i c' })
  deleted : {s : Scheduler} (pool : Option ℕ) → Step s (sched_delete pool s)

pub data Reach : Scheduler → Type 0 where
  -- A start that has its array, with no slot in use.
  initial :
      (v : List SchedulerConnection) (reorder : ℤ) (s : Scheduler)
      → length v ≡ 0x400
      → s.scheduler_connection_count ≡ 0
      → Reach (sched_start (some v) reorder s).1
  next : {s s' : Scheduler} → Reach s → Step s s' → Reach s'

-- The same number of slots in use, of the same array.
abbrev SameShape : Scheduler → Scheduler → Type 0
SameShape s s' =
    (s'.scheduler_connection_count ≡ s.scheduler_connection_count)
    × (s'.scheduler_connection_size ≡ s.scheduler_connection_size)
    × (s'.slots ≡ s.slots)

abbrev Triggered : Scheduler → Scheduler × SchedulerConnection × List Dispatch → Type 0
Triggered s (s', c', ds) = SameShape s s'

abbrev Checked :
    Scheduler
    → List SchedulerConnection
    → Scheduler × List SchedulerConnection × List Dispatch
    → Type 0
Checked s cs (s', cs', ds) = SameShape s s' × (length cs' ≡ length cs)

abbrev Passed : Scheduler × List Dispatch → Type 0
Passed (s', ds) = IsWhole s'

flush_pool-SameShape :
    (blank : Node) (s : Scheduler) (p : ℕ) → OnRet (SameShape s) (flush_pool blank s p)
flush_pool-SameShape blank s p =
    let cleared = clear_pool blank (s.pools p).pool_size (s.pools p).pool in
    OnRet-bind (λ v. Unit {0}) (SameShape s) cleared _ (OnRet-any cleared)
      (λ v any. (refl, refl, refl))

sched_trigger_snd-SameShape :
    (blank : Node) (s : Scheduler) (c : SchedulerConnection)
    → OnRet (Triggered s) (sched_trigger_snd blank s c)
unfolding sched_trigger_snd
sched_trigger_snd-SameShape blank s c = elim (Run-cases (session_of s c)) [
  | inr (inl e) ↦ rw (sched_trigger_snd, e) tt
  | inr (inr e) ↦ rw (sched_trigger_snd, e) tt
  | inl (target, e) ↦ elim (Option-cases target) [
    | inl unlinked ↦ rw (sched_trigger_snd, e, unlinked) (refl, refl, refl)
    | inr (u, to) ↦ elim (Option-cases c.session_ptr) [
      | inl null ↦ rw (sched_trigger_snd, e, to, null) tt
      | inr (p, at) ↦
          rw (sched_trigger_snd, e, to, at)
            (OnRet-bind (SameShape s) (Triggered s) (flush_pool blank s p) _
              (flush_pool-SameShape blank s p) (λ s' same. same))
    ]
  ]
]

sched_snd-SameShape :
    (moved : Node) (n : ℕ) (s : Scheduler) (c : SchedulerConnection)
    → OnRet (Triggered s) (sched_snd moved n s c)
unfolding sched_snd
sched_snd-SameShape moved n s c = elim (Run-cases (session_of s c)) [
  | inr (inl e) ↦ rw (sched_snd, e) tt
  | inr (inr e) ↦ rw (sched_snd, e) tt
  | inl (target, e) ↦ elim (Option-cases target) [
    | inl unlinked ↦ rw (sched_snd, e, unlinked) (refl, refl, refl)
    | inr (u, to) ↦ elim (Option-cases c.session_ptr) [
      | inl null ↦ rw (sched_snd, e, to, null) tt
      | inr (p, at) ↦ rw (sched_snd, e, to, at) (refl, refl, refl)
    ]
  ]
]

check_slots-SameShape :
    (blank : Node) (limit : ℕ) (s : Scheduler) (cs : List SchedulerConnection)
    → OnRet (Checked s cs) (check_slots blank limit s cs)
unfolding check_slots
check_slots-SameShape blank limit s [] = ((refl, refl, refl), refl)
check_slots-SameShape blank limit s (c ∷ cs) =
    elim (Bool-cases (leb c.realtime_deadline_us limit)) [
      | inr early ↦ rw (check_slots, early) ((refl, refl, refl), refl)
      | inl come ↦
          rw (check_slots, come)
            (OnRet-bind (Triggered s) (Checked s (c ∷ cs)) (sched_trigger_snd blank s c) _
              (sched_trigger_snd-SameShape blank s c)
              (λ (s', c', d) (count, size, slots).
                OnRet-bind (Checked s' cs) (Checked s (c ∷ cs)) (check_slots blank limit s' cs) _
                  (check_slots-SameShape blank limit s' cs)
                  (λ (s'', cs', ds) ((count', size', slots'), same).
                    ((count' ∙ count, size' ∙ size, slots' ∙ slots), ap suc same))))
    ]

IsWhole-SameLength :
    (s s' : Scheduler)
    → IsWhole s
    → s'.scheduler_connection_count ≡ s.scheduler_connection_count
    → s'.scheduler_connection_size ≡ s.scheduler_connection_size
    → length s'.slots ≡ length s.slots
    → IsWhole s'
IsWhole-SameLength s s' w count size same = record {
  used = omega (arith, w.used);
  size = same ∙ w.size ∙ sym size;
  some_room = omega (arith, w.some_room);
}

IsWhole-Triggered :
    (s s' : Scheduler) (i : ℕ) (c' : SchedulerConnection) (ds : List Dispatch)
    → IsWhole s
    → Triggered s (s', c', ds)
    → IsWhole (record s' { slots = set s'.slots i c' })
IsWhole-Triggered s s' i c' ds w (count, size, slots) =
    IsWhole-SameLength s _ w count size (length-set s'.slots i c' ∙ ap length slots)

-- A new front of the same length does not change the length.
length-front :
    (front v : List SchedulerConnection) (n : ℕ)
    → length front ≡ length (take n v)
    → length (front ++ drop n v) ≡ length v
length-front front v n same =
    length-append front (drop n v)
    ∙ ap (λ k. k + length (drop n v)) same
    ∙ sym (length-append (take n v) (drop n v))
    ∙ ap length (take-append-drop n v)

check_and_send_pass-IsWhole :
    (blank : Node) (now preemptive : ℕ) (s : Scheduler)
    → IsWhole s
    → OnRet Passed (check_and_send_pass blank now preemptive s)
unfolding check_and_send_pass
check_and_send_pass-IsWhole blank now preemptive s w =
    let cs = take s.scheduler_connection_count s.slots in
    let limit = (now + preemptive) % 2 ^ 64 in
    OnRet-bind (Checked s cs) Passed (check_slots blank limit s cs) _
      (check_slots-SameShape blank limit s cs)
      (λ (s', cs', ds) ((count, size, slots), same).
        IsWhole-SameLength s _ w count size
          (length-front cs' s.slots s.scheduler_connection_count same))

reorder_pass-IsWhole : (s : Scheduler) → IsWhole s → IsWhole (reorder_pass s)
reorder_pass-IsWhole s w =
    let n = s.scheduler_connection_count in
    let (sorted, e, o, k, same) =
      reorder_pass-stable s (take n s.slots) (drop n s.slots) (sym (take-append-drop n s.slots))
        (omega (arith, length-take n s.slots, w.used, w.size)) in
    subst IsWhole (sym e) (IsWhole-SameLength s _ w refl refl (length-front sorted s.slots n same))

length-delete_slot :
    (pool : Option ℕ) (v : List SchedulerConnection) → length (delete_slot pool v) ≡ length v
unfolding delete_slot
length-delete_slot pool [] = refl
length-delete_slot pool (c ∷ cs) = elim (Bool-cases (same_pointer c.session_ptr pool)) [
  | inl this ↦ rw (delete_slot, this) refl
  | inr other ↦ rw (delete_slot, other) (ap suc (length-delete_slot pool cs))
]

sched_delete-IsWhole : (pool : Option ℕ) (s : Scheduler) → IsWhole s → IsWhole (sched_delete pool s)
unfolding sched_delete
sched_delete-IsWhole pool s w =
    let n = s.scheduler_connection_count in
    IsWhole-SameLength s _ w refl refl (
      length-front (delete_slot pool (take n s.slots)) s.slots n
        (length-delete_slot pool (take n s.slots)))

abbrev Inserted : ℤ × Scheduler → Type 0
Inserted (status, s') = IsWhole s'

write_connection-IsWhole :
    (deadline p i : ℕ) (s : Scheduler)
    → IsWhole s
    → OnRet Inserted (write_connection deadline p (some i, s))
unfolding write_connection
write_connection-IsWhole deadline p i s w = elim (Option-cases (s.pools p).pool) [
  | inl null ↦ rw (write_connection, null) tt
  | inr ([], at) ↦ rw (write_connection, at) tt
  | inr (n ∷ ns, at) ↦
      rw (write_connection, at) (IsWhole-SameLength s _ w refl refl (length-set s.slots i _))
]

start-IsWhole :
    (v : List SchedulerConnection) (reorder : ℤ) (s : Scheduler)
    → length v ≡ 0x400
    → s.scheduler_connection_count ≡ 0
    → IsWhole (sched_start (some v) reorder s).1
unfolding sched_start
start-IsWhole v reorder s size none_used = elim (Bool-cases (eqb_ℤ reorder (pos 0))) [
  | inl ok ↦
      rw (sched_start, ok) record { used = omega arith; size = size; some_room = omega arith }
  | inr failed ↦
      rw (sched_start, failed) record { used = omega arith; size = size; some_room = omega arith }
]

Step-IsWhole : {s s' : Scheduler} → Step s s' → IsWhole s → IsWhole s'
Step-IsWhole {s} reordered w = reorder_pass-IsWhole s w
Step-IsWhole {s} (checked blank now preemptive ds e) w =
    subst (OnRet Passed) e (check_and_send_pass-IsWhole blank now preemptive s w)
Step-IsWhole {s} (taken fresh slot more e) w =
    let (i, s', e', below, w') = get_scheduler_connection_lem fresh s w more in
    subst (λ (r : Option ℕ × Scheduler). IsWhole r.1) (sym e' ∙ e) w'
Step-IsWhole {s} (written deadline p i status e) w =
    subst (OnRet Inserted) e (write_connection-IsWhole deadline p i s w)
Step-IsWhole {s} (pooled pools) w = IsWhole-SameLength s _ w refl refl refl
Step-IsWhole {s} (sent {s' = s'} moved n i c c' ds at e) w =
    IsWhole-Triggered s s' i c' ds w
      (subst (OnRet (Triggered s)) e (sched_snd-SameShape moved n s c))
Step-IsWhole {s} (triggered {s' = s'} blank i c c' ds at e) w =
    IsWhole-Triggered s s' i c' ds w
      (subst (OnRet (Triggered s)) e (sched_trigger_snd-SameShape blank s c))
Step-IsWhole {s} (deleted pool) w = sched_delete-IsWhole pool s w

-- After a start of the scheduler with its array and no slot in use, in every order of whole passes of
-- the two threads, of halves of insertions whose reallocs succeed, of sends of a slot, of deletions and
-- of changes of the pools, the slots in use fit the array, and the size is the array's and not zero.
pub Reach-IsWhole : {s : Scheduler} → Reach s → IsWhole s
Reach-IsWhole (initial v reorder s size none_used) = start-IsWhole v reorder s size none_used
Reach-IsWhole (next reach step) = Step-IsWhole step (Reach-IsWhole reach)
