-- ===== src/Process/Scheduler/Ticks.antt =====
-- How often `schedule` (zenos-kernel/src/process/scheduler/mod.rs) reschedules.
-- process is marked as running.
use zenos.Common.{
  ℕ, ◌≡◌, refl, false, List, Option, none, some, arith, get_elem?, Bool-cases, Option-cases, inl,
  inr, is_empty, ◌≤◌,
}
use zenos.Process.State.{ProcessState, Process}
use zenos.Process.Scheduler.{
  Scheduler, Machine, Scan, save_current, switch_in, pick, pick_at, reschedule_saved, reschedule,
  schedule, scan_all, new, force_reschedule,
}
use zenos.Process.Scheduler.Exclusive.{schedule_free, schedule_locked}

-- The scheduler's own state as the kernel can reach it: from `new`, by `force_reschedule` and by
-- `schedule`, whatever else has changed in the machine.
pub data Reached : Scheduler → Type 0 where
  fresh : Reached new
  forced : {s : Scheduler} → Reached s → Reached (force_reschedule s)
  ticked :
      (ctx : ProcessState) (m : Machine) (t : Scheduler)
      → Reached m.sched
      → t ≡ (schedule ctx m).0.sched
      → Reached t

switch_in-time :
    (b : ℕ) (p : Process) (s : Scan) (m : Machine) (ps : List Process)
    → ((switch_in b p s m ps).0.sched.time ≤ m.sched.quantum)
      × ((switch_in b p s m ps).0.sched.quantum ≡ m.sched.quantum)
unfolding switch_in
switch_in-time b p s m ps = (omega arith, refl)

pick-time :
    (best : Option ℕ) (s : Scan) (m : Machine) (ps : List Process)
    → m.sched.time ≤ m.sched.quantum
    → ((pick best s m ps).0.sched.time ≤ m.sched.quantum)
      × ((pick best s m ps).0.sched.quantum ≡ m.sched.quantum)
unfolding pick pick_at
pick-time none s m ps h = (h, refl)
pick-time (some b) s m ps h = elim (Option-cases (get_elem? ps b)) [
  | inl e ↦ rw e (h, refl)
  | inr (p, e) ↦ rw e (switch_in-time b p s m ps)
]

reschedule-time :
    (ctx : ProcessState) (m : Machine)
    → m.sched.time ≤ m.sched.quantum
    → ((reschedule ctx m).0.sched.time ≤ m.sched.quantum)
      × ((reschedule ctx m).0.sched.quantum ≡ m.sched.quantum)
unfolding reschedule reschedule_saved
reschedule-time ctx m h =
    let ps = save_current ctx m.sched.current_pid m.procs in
    elim (Bool-cases (is_empty ps)) [
      | inl e ↦ rw e (h, refl)
      | inr e ↦ rw e (pick-time (scan_all m.flag ps).best_idx (scan_all m.flag ps) m ps h)
    ]

Reached-time : {s : Scheduler} → Reached s → s.time ≤ s.quantum
unfolding new force_reschedule
Reached-time fresh = omega arith
Reached-time (forced r) = omega arith
Reached-time {s} (ticked ctx m t r e) = elim (Bool-cases m.locked) [
  | inl l ↦ rw (e, schedule_locked ctx m (Reached-time r) l) (Reached-time r)
  | inr l ↦
      rw (e, schedule_free ctx m (Reached-time r) l)
        (omega (arith, reschedule-time ctx m (Reached-time r)))
]

-- In every state that the kernel can reach, each tick with the lock free reschedules at once: the
-- quantum never makes a process keep the processor.
pub schedule-every_tick :
    (ctx : ProcessState) (m : Machine)
    → Reached m.sched
    → m.locked ≡ false
    → schedule ctx m ≡ reschedule ctx m
schedule-every_tick ctx m r l = schedule_free ctx m (Reached-time r) l
