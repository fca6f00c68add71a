-- ===== src/Scheduler/Life.antt =====
-- src/scheduler/dmmr_scheduler.c: how the scheduler is created and stopped, and what a start behind a
-- stop finds.
use dmmr_orbit.Base.{
  ℕ, suc, ◌+◌, ◌%◌, ◌^◌, leb, Bool, true, some, List, [], replicate, fault, ◌≡◌, refl, arith,
}
use dmmr_orbit.Base.Codes.{codes}
use dmmr_orbit.Base.Int.{pos}
use dmmr_orbit.Exception.{LogCall, construct}
use dmmr_orbit.Node.{Node}
use dmmr_orbit.Scheduler.{
  Scheduler, zeroed, sched_start, check_and_send_pass, check_slots, sched_trigger_snd,
}

-- `has_args` says whether the socket and the configuration are both not null.
unfoldable pub new_dmmr_scheduler : Bool → Bool → Bool × List LogCall
unfolding construct
new_dmmr_scheduler has_args allocated = construct has_args allocated (codes "Scheduler criado")

-- `sched_stop`. The array that is freed has no slot that may be read; the count stays.
unfoldable pub sched_stop : Scheduler → Scheduler
sched_stop s = record s { slots = []; run = 0 }

-- A scheduler that has had a connection does not survive a restart: the start takes an array of
-- zeroed slots and leaves the count as it was, so the first pass, whatever the time, takes the
-- deadline of 0 for one that has come and reads a null pool.
pub sched_start-sched_stop_faults :
    (blank : Node) (now preemptive n : ℕ) (s : Scheduler)
    → s.scheduler_connection_count ≡ suc n
    → check_and_send_pass blank now preemptive
        (sched_start (some (replicate 0x400 zeroed)) (pos 0) (sched_stop s)).1
      ≡ fault
unfolding check_and_send_pass check_slots sched_trigger_snd sched_start sched_stop
sched_start-sched_stop_faults blank now preemptive n s k =
    let zero_due : leb 0 ((now + preemptive) % 2 ^ 64) ≡ true = ground arith in
    rw (check_and_send_pass, k, check_slots, zero_due) refl
