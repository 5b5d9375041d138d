-- ===== src/Process/Scheduler.antt =====
-- `Scheduler` of zenos-kernel/src/process/scheduler/mod.rs. `procs` is the array `PROCESSES`;
-- `current_proc` is the place in it that the per-CPU pointer points to.
pub mod Best
pub mod Exclusive
pub mod Ticks
pub mod Fresh
pub mod Wake
use zenos.Common.{
  ℕ, suc, ◌+◌, Bool, true, false, List, [], ◌∷◌, Option, none, some, if◌then◌else◌, ◌==◌, ◌&&◌, not,
  leb, ltb, u64_max, get_elem?, set, remove_at, is_empty,
}
use zenos.Process.State.{
  ProcessState, ProcessStatus, Process, running, ready, created, exited, blocked, waiting_for,
  is_ready, save_context,
}

pub record Scheduler : Type 0 where
  pub current_pid : Option ℕ
  pub quantum : ℕ
  pub time : ℕ

unfoldable pub new : Scheduler
new = record { current_pid = none; quantum = 5; time = 0 }

unfoldable pub force_reschedule : Scheduler → Scheduler
force_reschedule s = record s { time = s.quantum }

-- What `schedule` reads and writes besides its argument: the lock's state (`try_lock` fails while it
-- is held), the flags behind blocked processes, CR3, and the per-CPU current process.
pub record Machine : Type 0 where
  pub sched : Scheduler
  pub procs : List Process
  pub locked : Bool
  pub flag : ℕ → Bool
  pub cr3_now : ℕ
  pub idle : ProcessState
  pub percpu_pid : ℕ
  pub current_proc : Option ℕ
  pub next_pid : ℕ

abbrev pub max_priority : ℕ
max_priority = 255

-- `iter().position(|p| p.pid == pid)`.
unfoldable pub position : ℕ → List Process → Option ℕ
position pid [] = none
position pid (p ∷ ps) =
    let rest = position pid ps in
    if p.pid == pid then some 0 else elim rest [ none ↦ none | some i ↦ some (suc i) ]

-- `procs.iter_mut().find(…)` with the body of the `if let`: the first process with the pid.
abbrev save_as : ProcessState → Process → ProcessStatus → Process
save_as ctx p running = save_context ctx p
save_as ctx p (blocked flag) = save_context ctx p
save_as ctx p _ = p

unfoldable pub save_current : ProcessState → Option ℕ → List Process → List Process
unfolding save_context
save_current ctx none ps = ps
save_current ctx (some pid) [] = []
save_current ctx (some pid) (p ∷ ps) =
    if p.pid == pid then save_as ctx p p.status ∷ ps else p ∷ save_current ctx (some pid) ps

-- The locals of the pass over the processes.
pub record Scan : Type 0 where
  pub best_idx : Option ℕ
  pub best_priority : ℕ
  pub reap_idx : Option ℕ
  pub wake_idx : Option (ℕ × ℕ)

-- The exit code of the process at an index, if there is one.
unfoldable pub exit_code_at : List Process → Option ℕ → Option ℕ
exit_code_at ps none = none
exit_code_at ps (some i) = elim (get_elem? ps i) [ none ↦ none | some p ↦ p.exit_code ]

-- Whether a process that waits for a target may be woken, and with what code: the target has left
-- one, or is gone.
wake_code : Option ℕ → Option ℕ → Option ℕ
wake_code none code = some u64_max
wake_code (some i) none = none
wake_code (some i) (some c) = some c

scan_wake : ℕ → Process → Option ℕ → ℕ → Scan → Scan
scan_wake i p target code s =
    if ltb p.priority s.best_priority
    then record {
      best_idx = some i;
      best_priority = p.priority;
      reap_idx = target;
      wake_idx = some (i, code);
    }
    else s

scan_run : ℕ → Process → Scan → Scan
scan_run i p s =
    if ltb p.priority s.best_priority
    then record s { best_idx = some i; best_priority = p.priority }
    else s

scan_status : (ℕ → Bool) → List Process → ℕ → Process → ProcessStatus → Scan → Scan
unfolding position exit_code_at wake_code scan_wake scan_run
scan_status flag all i p (waiting_for pid) s =
    let target = position pid all in
    elim (wake_code target (exit_code_at all target)) [
      | none ↦ s
      | some code ↦ scan_wake i p target code s
    ]
scan_status flag all i p (blocked f) s = if flag f then s else scan_run i p s
scan_status flag all i p ready s = scan_run i p s
scan_status flag all i p _ s = s

scan : (ℕ → Bool) → List Process → ℕ → List Process → Scan → Scan
unfolding scan_status
scan flag all i [] s = s
scan flag all i (p ∷ ps) s = scan flag all (suc i) ps (scan_status flag all i p p.status s)

abbrev pub scan_start : Scan
scan_start = record {
  best_idx = none;
  best_priority = max_priority;
  reap_idx = none;
  wake_idx = none;
}

unfoldable pub scan_all : (ℕ → Bool) → List Process → Scan
unfolding scan
scan_all flag ps = scan flag ps 0 ps scan_start

-- `procs[best_idx].state.rax = exit_code` where a process is to be woken.
set_rax : Option (ℕ × ℕ) → Process → Process
set_rax none p = p
set_rax (some (i, code)) p = record p { state = let s = p.state in record s { rax = code } }

reap : Option ℕ → List Process → List Process
reap none ps = ps
reap (some i) ps = remove_at ps i

-- The tail of `schedule`, for the process at `best`. `set_current` stores its pid and its place.
pub switch_in :
    ℕ → Process → Scan → Machine → List Process → Machine × Option (ℕ × ℕ × ProcessState)
unfolding set_rax reap
switch_in best p s m ps =
    let next = set_rax s.wake_idx p in
    let sched = m.sched in
    (
      record m {
        sched = record sched { current_pid = some next.pid; time = 0 };
        procs = reap s.reap_idx (set ps best (record next { status = running }));
        percpu_pid = next.pid;
        current_proc = some best;
      },
      some (next.pid, next.cr3, next.state),
    )

pick_at :
    ℕ → Option Process → Scan → Machine → List Process → Machine × Option (ℕ × ℕ × ProcessState)
unfolding switch_in
pick_at best none s m ps = (record m { procs = ps }, none)
pick_at best (some p) s m ps = switch_in best p s m ps

-- The first `Some` of `schedule` where nothing is runnable: pid 0 and the idle state.
pick : Option ℕ → Scan → Machine → List Process → Machine × Option (ℕ × ℕ × ProcessState)
unfolding pick_at
pick none s m ps = (record m { procs = ps }, some (0, m.cr3_now, m.idle))
pick (some best) s m ps = pick_at best (get_elem? ps best) s m ps

-- `schedule` behind the test of the lock, on the processes with the current one saved.
reschedule_saved : List Process → Machine → Machine × Option (ℕ × ℕ × ProcessState)
unfolding scan_all pick
reschedule_saved ps m =
    if is_empty ps
    then (record m { procs = ps }, none)
    else let s = scan_all m.flag ps in pick s.best_idx s m ps

pub reschedule : ProcessState → Machine → Machine × Option (ℕ × ℕ × ProcessState)
unfolding save_current reschedule_saved
reschedule ctx m = reschedule_saved (save_current ctx m.sched.current_pid m.procs) m

unfoldable pub schedule : ProcessState → Machine → Machine × Option (ℕ × ℕ × ProcessState)
unfolding reschedule
schedule ctx m =
    if leb m.sched.time m.sched.quantum
    then if m.locked then (m, none) else reschedule ctx m
    else let sched = m.sched in (record m { sched = record sched { time = sched.time + 1 } }, none)
