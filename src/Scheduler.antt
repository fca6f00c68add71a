-- ===== src/Scheduler.antt =====
-- src/scheduler/dmmr_scheduler.c: the slots of the connections, ordered by deadline in one thread
-- and served from the front in another.
-- A pass of a thread's loop, and each call, holds `slots_mutex` from its start to its end, so they
-- are steps. `slots` is the whole array; the first `scheduler_connection_count` of them count. A
-- pool is known by its address; a zeroed slot has a null pointer for its pool.
pub mod Order
pub mod Check
pub mod Liveness
pub mod Slots
pub mod Steps
pub mod Life
mod Tests
use dmmr_orbit.Base.{
  ℕ, zero, suc, ◌+◌, ◌-◌, ◌*◌, ◌/◌, ◌%◌, ◌^◌, ltb, leb, ◌==◌, if◌then◌else◌, ◌||◌, not, Bool, true,
  false, Option, none, some, List, [], ◌∷◌, ◌++◌, Run, ret, fault, ◌>>=◌, get_elem?, set, take,
  drop, length, replicate,
}
use dmmr_orbit.Base.Int.{ℤ, pos, eof, eqb_ℤ}
use dmmr_orbit.Node.{Node, value_output_size}
use dmmr_orbit.Protocol.{Endpoint, get_session_pointer}
use dmmr_orbit.Session.{SessionConnectionPool}

-- `struct scheduler_connection`.
pub record SchedulerConnection : Type 0 where
  pub last_active_time_us : ℕ
  pub realtime_deadline_us : ℕ
  pub deadline_us : ℕ
  pub session_ptr : Option ℕ

-- The bytes that `__mset` and `calloc` leave.
abbrev pub zeroed : SchedulerConnection
zeroed = record {
  last_active_time_us = 0;
  realtime_deadline_us = 0;
  deadline_us = 0;
  session_ptr = none;
}

-- The static state of the file, and the pools it points into.
pub record Scheduler : Type 0 where
  pub scheduler_connection_size : ℕ
  pub scheduler_connection_count : ℕ
  pub slots : List SchedulerConnection
  pub run : ℕ
  pub pools : ℕ → SessionConnectionPool

abbrev pub deadline_at : List SchedulerConnection → ℕ → ℕ
deadline_at v i = elim (get_elem? v i) [ none ↦ 0 | some c ↦ c.realtime_deadline_us ]

-- The binary search of `_reorder_thread`, with `hi` for `right + 1`.
unfoldable pub search_place : List SchedulerConnection → ℕ → ℕ → ℕ → ℕ → ℕ
search_place v key_deadline zero left hi = left
search_place v key_deadline (suc n) left hi =
    let mid = (left + hi - 1) / 2 in
    let above = search_place v key_deadline n (mid + 1) hi in
    let below = search_place v key_deadline n left mid in
    if ltb left hi then (if leb (deadline_at v mid) key_deadline then above else below) else left

-- `*(slots + j + 1) = *(slots + j)` for the `n` indices from `left` on, the last one first, and
-- then `*(slots + left) = key`.
unfoldable pub shift_in :
    SchedulerConnection → ℕ → ℕ → List SchedulerConnection → List SchedulerConnection
shift_in key left zero v = set v left key
shift_in key left (suc n) v = elim (get_elem? v (left + n)) [
  | none ↦ v
  | some c ↦ shift_in key left n (set v (left + suc n) c)
]

-- The rounds of the pass from index `i` on.
unfoldable pub reorder_rounds : ℕ → ℕ → List SchedulerConnection → List SchedulerConnection
unfolding search_place shift_in
reorder_rounds zero i v = v
reorder_rounds (suc n) i v = elim (get_elem? v i) [
  | none ↦ v
  | some key ↦
      let left = search_place v key.realtime_deadline_us i 0 i in
      reorder_rounds n (i + 1) (shift_in key left (i - left) v)
]

-- One pass of `_reorder_thread`.
unfoldable pub reorder_pass : Scheduler → Scheduler
unfolding reorder_rounds
reorder_pass s = record s { slots = reorder_rounds (s.scheduler_connection_count - 1) 1 s.slots }

-- A call of the socket's dispatcher.
pub record Dispatch : Type 0 where
  pub target : ℕ
  pub pool : ℕ
  pub first : ℕ
  pub count : ℕ

abbrev pub update {ℓ} : {A : Type ℓ} → (ℕ → A) → ℕ → A → ℕ → A
update f i a j = if j == i then a else f j

-- `get_session_pointer(&(pool->session))` of a slot's pool; with a null pool it is read through
-- address 0.
abbrev pub session_of : Scheduler → SchedulerConnection → Run (Option ℕ)
session_of s c = elim c.session_ptr [
  | none ↦ fault
  | some p ↦ get_session_pointer (some (s.pools p).session)
]

-- `__mset(pool->pool, 0, pool->pool_size * sizeof(struct node))`, without a test of the pointer;
-- `blank` is a node of zero bytes.
abbrev pub clear_pool : Node → ℕ → Option (List Node) → Run (Option (List Node))
clear_pool blank size none = if size == 0 then ret none else fault
clear_pool blank size (some v) = ret (some (replicate size blank))

-- `pool->pool_count = 0`, and every node of the pool is cleared.
abbrev pub flush_pool : Node → Scheduler → ℕ → Run Scheduler
flush_pool blank s p = clear_pool blank (s.pools p).pool_size (s.pools p).pool >>= λ v.
    ret (record s { pools = update s.pools p (record (s.pools p) { pool_count = 0; pool = v }) })

-- `sched_trigger_snd` on a slot that is not null.
unfoldable pub sched_trigger_snd :
    Node → Scheduler → SchedulerConnection → Run (Scheduler × SchedulerConnection × List Dispatch)
sched_trigger_snd blank s conn = session_of s conn >>= λ target. elim target [
  | none ↦ ret (s, conn, [])
  | some u ↦ elim conn.session_ptr [
    | none ↦ fault
    | some p ↦ flush_pool blank s p >>= λ s'. ret (
      s',
      record conn { last_active_time_us = 0; realtime_deadline_us = 0; deadline_us = 0 },
      record { target = u; pool = p; first = 0; count = (s.pools p).pool_count } ∷ [],
    )
  ]
]

-- The loop over the slots that are left, in one pass of `_check_and_send_thread`.
unfoldable pub check_slots :
    Node
    → ℕ
    → Scheduler
    → List SchedulerConnection
    → Run (Scheduler × List SchedulerConnection × List Dispatch)
unfolding sched_trigger_snd
check_slots blank limit s [] = ret (s, [], [])
check_slots blank limit s (c ∷ cs) =
    if leb c.realtime_deadline_us limit
    then (sched_trigger_snd blank s c >>= λ (s', c', d).
        check_slots blank limit s' cs >>= λ (s'', cs', ds). ret (s'', c' ∷ cs', d ++ ds))
    else ret (s, c ∷ cs, [])

-- One pass: `now` and the server's `scheduler_preemptive_deadline` are 64-bit numbers.
unfoldable pub check_and_send_pass : Node → ℕ → ℕ → Scheduler → Run (Scheduler × List Dispatch)
unfolding check_slots
check_and_send_pass blank now preemptive s =
    check_slots blank ((now + preemptive) % 2 ^ 64) s (take s.scheduler_connection_count s.slots)
    >>= λ (s', cs, ds).
        ret (record s' { slots = cs ++ drop s.scheduler_connection_count s.slots }, ds)

abbrev pub same_pointer : Option ℕ → Option ℕ → Bool
same_pointer none none = true
same_pointer none (some b) = false
same_pointer (some a) none = false
same_pointer (some a) (some b) = a == b

-- The first slot of the pool is cleared.
unfoldable pub delete_slot : Option ℕ → List SchedulerConnection → List SchedulerConnection
delete_slot pool [] = []
delete_slot pool (c ∷ cs) =
    let rest = delete_slot pool cs in
    if same_pointer c.session_ptr pool then zeroed ∷ cs else c ∷ rest

unfoldable pub sched_delete : Option ℕ → Scheduler → Scheduler
unfolding delete_slot
sched_delete pool s = record s {
  slots =
      delete_slot pool (take s.scheduler_connection_count s.slots)
      ++ drop s.scheduler_connection_count s.slots;
}

-- A slot with no pool, or with a pool whose thread does not run, is free.
abbrev pub is_free_slot : Scheduler → SchedulerConnection → Bool
is_free_slot s c = elim c.session_ptr [ none ↦ true | some p ↦ (s.pools p).run == 0 ]

unfoldable pub find_free_slot : Scheduler → ℕ → List SchedulerConnection → Option ℕ
find_free_slot s i [] = none
find_free_slot s i (c ∷ cs) =
    let rest = find_free_slot s (i + 1) cs in if is_free_slot s c then some i else rest

-- The index of the slot that is handed out. `fresh` is what the realloc'ed array holds behind the
-- old slots, `none` a failed realloc. The source reads the array and the count before it takes the
-- mutex; this is a call during which no other thread changes them.
unfoldable pub get_scheduler_connection :
    Option (List SchedulerConnection) → Scheduler → Option ℕ × Scheduler
get_scheduler_connection fresh s =
    elim (find_free_slot s 0 (take s.scheduler_connection_count s.slots)) [
      | some i ↦ (some i, s)
      | none ↦
          let taken = record s { scheduler_connection_count = s.scheduler_connection_count + 1 } in
          let size' = s.scheduler_connection_size * 2 in
          if leb s.scheduler_connection_size s.scheduler_connection_count
          then elim fresh [
            | none ↦ (none, record s { scheduler_connection_size = size'; slots = [] })
            | some new ↦ (
              some s.scheduler_connection_count,
              record taken {
                scheduler_connection_size = size';
                slots = take size' (s.slots ++ new);
              },
            )
          ]
          else (some s.scheduler_connection_count, taken)
    ]

-- What `sched_insert` writes to the slot handed out, without a test for null and without the mutex, in
-- an array that no other call moved since: the source writes through the pointer to the slot.
unfoldable pub write_connection : ℕ → ℕ → Option ℕ × Scheduler → Run (ℤ × Scheduler)
write_connection deadline p (none, s) = fault
write_connection deadline p (some i, s) = elim (s.pools p).pool [
  | none ↦ fault
  | some nodes ↦ elim nodes [
    | [] ↦ fault
    | n ∷ ns ↦
        let c : SchedulerConnection = record {
          last_active_time_us = n.arrival;
          realtime_deadline_us = n.deadline;
          deadline_us = deadline;
          session_ptr = some p;
        } in
        ret (pos 0, record s { slots = set s.slots i c })
  ]
]

-- `deadline` is the scheduler's own.
unfoldable pub sched_insert :
    ℕ → Option (List SchedulerConnection) → Option ℕ → Scheduler → Run (ℤ × Scheduler)
unfolding get_scheduler_connection write_connection
sched_insert deadline fresh none s = ret (eof, s)
sched_insert deadline fresh (some p) s =
    write_connection deadline p (get_scheduler_connection fresh s)

-- `sched_snd` on a slot that is not null: what is sent is `siz` nodes from `n` on. `moved` is the
-- node at `n` after the rest was moved down onto it.
unfoldable pub sched_snd :
    Node
    → ℕ
    → Scheduler
    → SchedulerConnection
    → Run (Scheduler × SchedulerConnection × List Dispatch)
sched_snd moved n s conn = session_of s conn >>= λ target. elim target [
  | none ↦ ret (s, conn, [])
  | some u ↦ elim conn.session_ptr [
    | none ↦ fault
    | some p ↦
        let pool = s.pools p in
        let siz =
          if ltb pool.pool_size value_output_size then pool.pool_size else value_output_size in
        ret (
          record s {
            pools = update s.pools p (record pool {
              pool_count = (pool.pool_count + 2 ^ 32 - siz) % 2 ^ 32;
              pool_size = pool.pool_size - siz;
            });
          },
          record conn {
            last_active_time_us = moved.arrival;
            realtime_deadline_us = moved.deadline;
            deadline_us = moved.deadline;
          },
          record { target = u; pool = p; first = n; count = siz } ∷ [],
        )
  ]
]

-- `sched_start`, where `this` is set: `slots` is what calloc returned, `reorder` what the creation
-- of the first thread returns. What the second returns is not looked at.
unfoldable pub sched_start : Option (List SchedulerConnection) → ℤ → Scheduler → ℤ × Scheduler
sched_start none reorder s = (eof, record s { slots = [] })
sched_start (some v) reorder s =
    let s' = record s { slots = v; scheduler_connection_size = 0x400; run = 1 } in
    if eqb_ℤ reorder (pos 0) then (pos 0, s') else (reorder, s')
