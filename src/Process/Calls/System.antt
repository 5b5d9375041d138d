-- ===== src/Process/Calls/System.antt =====
-- The invariant of the list of processes under `schedule` and the process calls of
-- zenos-kernel/src/process and zenos-kernel/src/syscall, taken in any order.
use zenos.Common.{ℕ, ◌≡◌, sym, subst, Bool, Option, some, inl, inr}
use zenos.Process.State.{ProcessState, Process}
use zenos.Process.Scheduler.{Machine, force_reschedule, schedule}
use zenos.Process.Calls.{
  current_proc_mut, block_current_process, fork, exit_current, reaped, yielded, wait_turn,
}
use zenos.Process.Calls.Waiting.{WaitsAny, WaitsFor, wait_turn-Waits}
use zenos.Process.Calls.Sound.{
  Sound, schedule-Sound, fork-Sound, exit_current-Sound, reaped-Sound, mark_waiting-Sound,
  block_current_process-Sound,
}

-- One step of the kernel on its processes: a tick with any context, a forced reschedule, a call of
-- the current process, or a change of the lock or of the flags that hold processes back.
pub data Step (m : Machine) : Machine → Type 0 where
  ticks : (ctx : ProcessState) → Step m (schedule ctx m).0
  forces : Step m (record m { sched = force_reschedule m.sched })
  forks :
      (user_cs user_ss opened : ℕ) (cloned : Option ℕ)
      → Step m (fork user_cs user_ss cloned opened m).0
  exits :
      (rdi : ℕ) (p : Process) (n : Machine)
      → current_proc_mut m ≡ some p
      → exit_current rdi p m ≡ some n
      → Step m n
  reaps : (target code cr3 : ℕ) (n : Machine) → wait_turn target m ≡ reaped n code cr3 → Step m n
  waits : (target t : ℕ) (n : Machine) → wait_turn target m ≡ yielded n t → Step m n
  blocks : (lock : ℕ) → Step m (block_current_process lock m)
  changes : (locked : Bool) (flag : ℕ → Bool) → Step m (record m { locked = locked; flag = flag })

-- Every step keeps the pids apart and below the next one, and at most the current process running.
pub Step-Sound : {m n : Machine} → Step m n → Sound m → Sound n
unfolding force_reschedule
Step-Sound {m} (ticks ctx) h = schedule-Sound ctx m h
Step-Sound {m} forces h = record { distinct = h.distinct; runs_only = h.runs_only; below = h.below }
Step-Sound {m} (forks cs ss opened cloned) h = fork-Sound cs ss opened cloned m h
Step-Sound {m} {n} (exits rdi p n' e out) h = exit_current-Sound rdi p m n e out h
Step-Sound {m} {n} (reaps target code cr3 n' e) h = elim (wait_turn-Waits target m) [
  | inl (any, w) ↦ let (z, d, x, y, c, s, k) = subst (WaitsAny m) e w in reaped-Sound m n z d s k h
  | inr (one, w) ↦
      let (z, d, x, y, c, s, k) = subst (WaitsFor target m) e w in reaped-Sound m n z d s k h
]
Step-Sound {m} {n} (waits target t n' e) h = elim (wait_turn-Waits target m) [
  | inl (any, w) ↦
      let (same, none_exited, child) = subst (WaitsAny m) e w in
      subst Sound (sym same) (mark_waiting-Sound t m h)
  | inr (one, w) ↦
      let (tt', same, none_exited, there) = subst (WaitsFor target m) e w in
      subst Sound (sym same) (mark_waiting-Sound target m h)
]
Step-Sound {m} (blocks lock) h = block_current_process-Sound lock m h
Step-Sound {m} (changes locked flag) h = record {
  distinct = h.distinct;
  runs_only = h.runs_only;
  below = h.below;
}

pub data Reaches (m : Machine) : Machine → Type 0 where
  stays : Reaches m m
  then_step : {n o : Machine} → Reaches m n → Step n o → Reaches m o

-- From a state in which no two processes share a pid, only the current one runs and all pids lie
-- below the next one, every state that ticks, forced reschedules, forks, exits, turns of waiting,
-- blocking, and changes of the lock and the flags lead to, in any order, is such a state too.
pub Reaches-Sound : {m n : Machine} → Reaches m n → Sound m → Sound n
Reaches-Sound stays h = h
Reaches-Sound (then_step r s) h = Step-Sound s (Reaches-Sound r h)
