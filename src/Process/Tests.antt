-- ===== src/Process/Tests.antt =====
-- The theorems on the scheduler and on the process calls, applied to a machine of four processes.
use zenos.Common.{
  ℕ, ◌≡◌, ◌≢◌, refl, ◌⊎◌, true, false, List, [], ◌∷◌, Option, none, some, arith, if◌then◌else◌,
  ◌==◌, get_elem?, All,
}
use zenos.Process.State.{ProcessState, ProcessStatus, Process, running, ready, exited, waiting_for}
use zenos.Process.Scheduler.{
  Machine, Scan, new, force_reschedule, position, exit_code_at, save_current, scan_all, reschedule,
  schedule,
}
use zenos.Process.Scheduler.Best.{IsBest, scan_all-IsBest}
use zenos.Process.Scheduler.Exclusive.{Exclusive}
use zenos.Process.Scheduler.Ticks.{forced, fresh, schedule-every_tick}
use zenos.Process.Scheduler.Wake.{reschedule-delivers}
use zenos.Process.Calls.{
  fork, block_current_process, current_proc_mut, exit_current, wait_turn, any_child,
}
use zenos.Process.Calls.Waiting.{WaitsAny, WaitsFor, wait_turn-Waits}
use zenos.Process.Calls.Exiting.{ExitCode, IsZombie, exit_current-exits}
use zenos.Process.Calls.Forking.{Forks, fork-Forks}
use zenos.Process.Calls.Sound.{Sound}
use zenos.Process.Calls.System.{forks, blocks, ticks, stays, then_step, Reaches-Sound}

abbrev registers : ProcessState
registers = record {
  rax = 1;
  rbx = 2;
  rcx = 3;
  rdx = 4;
  rsi = 5;
  rdi = 6;
  rbp = 7;
  rsp = 8;
  r8 = 9;
  r9 = 10;
  r10 = 11;
  r11 = 12;
  r12 = 13;
  r13 = 14;
  r14 = 15;
  r15 = 16;
  rip = 17;
  rflags = 0x202;
  cs = 0x23;
  ss = 0x1b;
  fxsave = 0;
}

-- A process of the given pid, parent, status, exit code and priority.
abbrev proc : ℕ → ℕ → ProcessStatus → Option ℕ → ℕ → Process
proc pid parent status code priority = record {
  pid = pid;
  parent_pid = parent;
  name = [];
  state = registers;
  status = status;
  cr3 = pid;
  end = 0;
  entry_point = 0;
  file_handles = [];
  cwd = 0;
  load_bias = 0;
  loaded = true;
  user_stack_top = 0;
  exit_code = code;
  envp = [];
  argv = [];
  priority = priority;
}

abbrev zombie : Process
zombie = proc 3 2 exited (some 42) 5

abbrev waiter : Process
waiter = proc 2 1 (waiting_for 3) none 5

abbrev current : Process
current = proc 4 2 running none 5

abbrev urgent : Process
urgent = proc 5 1 ready none 1

-- A machine whose scheduler is due, with the given processes and current one.
abbrev machine : List Process → Option ℕ → Option ℕ → Machine
machine ps pid at = record {
  sched = record { current_pid = pid; quantum = 5; time = 5 };
  procs = ps;
  locked = false;
  flag = λ f. true;
  cr3_now = 0;
  idle = registers;
  percpu_pid = 2;
  current_proc = at;
  next_pid = 9;
}

abbrev busy : List Process
busy = waiter ∷ zombie ∷ current ∷ []

abbrev calm : Machine
calm = machine busy (some 4) (some 2)

scan_all-IsBest_example :
    IsBest
      (λ f. true)
      (waiter ∷ zombie ∷ urgent ∷ [])
      (waiter ∷ zombie ∷ urgent ∷ [])
      (scan_all (λ f. true) (waiter ∷ zombie ∷ urgent ∷ []))
scan_all-IsBest_example = scan_all-IsBest (λ f. true) (waiter ∷ zombie ∷ urgent ∷ [])

calm-Exclusive : Exclusive calm
calm-Exclusive = record {
  distinct = (((λ e. omega arith), ((λ e. omega arith), tt)), (((λ e. omega arith), tt), (tt, tt)));
  runs_only = ((λ e. cc), ((λ e. cc), ((λ e. refl), tt)));
}

abbrev forced_machine : Machine
forced_machine = record calm { sched = force_reschedule new }

schedule-every_tick_example :
    schedule registers forced_machine ≡ reschedule registers forced_machine
schedule-every_tick_example = schedule-every_tick registers forced_machine (forced fresh) refl

abbrev reaping : Scan
reaping = record {
  best_idx = some 1;
  best_priority = 5;
  reap_idx = some 0;
  wake_idx = some (1, 42);
}

abbrev delivered : ProcessState
delivered = record registers { rax = 42 }

reschedule-delivers_example :
    ((reschedule registers calm).1 ≡ some (2, 2, delivered))
    × ((reschedule registers calm).0.procs
        ≡ record waiter { state = delivered; status = running } ∷ proc 4 2 ready none 5 ∷ [])
unfolding save_current position exit_code_at
reschedule-delivers_example =
    reschedule-delivers registers calm waiter (zombie ∷ proc 4 2 ready none 5 ∷ []) 3 1 42 refl refl
      refl refl (omega arith) (omega arith, (omega arith, tt))

abbrev crowded : Machine
crowded = machine (waiter ∷ urgent ∷ zombie ∷ []) none none

wait_turn-Waits_example :
    ((any_child ≡ any_child) × WaitsAny calm (wait_turn any_child calm))
    ⊎ ((any_child ≢ any_child) × WaitsFor any_child calm (wait_turn any_child calm))
wait_turn-Waits_example = wait_turn-Waits any_child calm

exit_current-exits_example :
    ((◌≡◌ {A = ℕ} 4 1) × (exit_current 7 current calm ≡ none))
    ⊎ ((◌≢◌ {A = ℕ} 4 1)
        × ((n : Machine) × (exit_current 7 current calm ≡ some n)
            × ((code : ℕ) × ExitCode 7 code × IsZombie n.procs 2 4 code)
            × All (λ q. q.parent_pid ≢ 4) n.procs
            × ((j : ℕ) (q : Process)
                → ◌≢◌ {A = ℕ} 2 j
                → get_elem? busy j ≡ some q
                → get_elem? n.procs j
                  ≡ some (if q.parent_pid == 4 then record q { parent_pid = 1 } else q))))
exit_current-exits_example = exit_current-exits 7 2 current calm refl refl

fork-Forks_example :
    Forks current
      (some 77)
      (machine (waiter ∷ zombie ∷ current ∷ []) (some 4) (some 2))
      (fork 0x23 0x1b (some 77) 6 (machine (waiter ∷ zombie ∷ current ∷ []) (some 4) (some 2)))
unfolding current_proc_mut
fork-Forks_example =
    fork-Forks 0x23 0x1b 6 (some 77) (machine (waiter ∷ zombie ∷ current ∷ []) (some 4) (some 2))
      current refl

-- "ls", "-l" and one variable.
abbrev ls : Process
ls = record current {
  end = 0x5000;
  load_bias = 0x400000;
  entry_point = 0x100;
  argv = (108 ∷ 115 ∷ []) ∷ (45 ∷ 108 ∷ []) ∷ [];
  envp = (65 ∷ 61 ∷ 66 ∷ []) ∷ [];
}

calm-Sound : Sound calm
calm-Sound = record {
  distinct = calm-Exclusive.distinct;
  runs_only = calm-Exclusive.runs_only;
  below = (omega arith, (omega arith, (omega arith, tt)));
}

-- A fork of the current process, a block and a tick.
Reaches-Sound_example :
    Sound (schedule registers (block_current_process 7 (fork 0x23 0x1b (some 77) 6 calm).0)).0
Reaches-Sound_example =
    Reaches-Sound
      (then_step (then_step (then_step stays (forks 0x23 0x1b 6 (some 77))) (blocks 7))
        (ticks registers))
      calm-Sound
