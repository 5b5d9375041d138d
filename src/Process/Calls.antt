-- ===== src/Process/Calls.antt =====
-- `fork`, `exit` and `waitpid` (zenos-kernel/src/syscall/{fork,exit,wait}.rs), `Process::fork_from`
-- and `block_current_process` (zenos-kernel/src/process/mod.rs) on the state of the scheduler.
pub mod Reaping
pub mod Waiting
pub mod Exiting
pub mod Forking
pub mod Sound
pub mod System
use zenos.Common.{
  ℕ, zero, suc, ◌+◌, ◌-◌, ◌^◌, ◌%◌, Bool, true, false, ◌&&◌, List, [], ◌∷◌, ◌++◌, Option, none,
  some, if◌then◌else◌, ◌==◌, ltb, length, get_elem?, set, bit_or, errno, u64_max, u64_size,
}
use zenos.Files.Table.{Table}
use zenos.Process.State.{
  ProcessState, zero_state, ProcessStatus, Process, running, ready, created, exited, blocked,
  waiting_for,
}
use zenos.Process.Scheduler.{Machine, Scheduler, position, force_reschedule, schedule}

-- The capacity of `PROCESSES`.
abbrev pub max_processes : ℕ
max_processes = 256

abbrev pub default_priority : ℕ
default_priority = 15

abbrev pub eagain : ℕ
eagain = 11

abbrev pub enomem : ℕ
enomem = 12

abbrev pub echild : ℕ
echild = 10

abbrev pub no_process : ℕ
no_process = 3

-- `current_proc_mut`: the process at the place of the per-CPU pointer.
unfoldable pub current_proc_mut : Machine → Option Process
current_proc_mut m = elim m.current_proc [ none ↦ none | some i ↦ get_elem? m.procs i ]

-- Stores the process back through the pointer.
store_current : Machine → Process → Machine
store_current m p = elim m.current_proc [ none ↦ m | some i ↦ record m { procs = set m.procs i p } ]

-- `block_current_process`.
unfoldable pub block_current_process : ℕ → Machine → Machine
unfolding current_proc_mut store_current
block_current_process lock m = elim (current_proc_mut m) [
  | none ↦ m
  | some p ↦ store_current m (record p { status = blocked lock })
]

-- The state in which a forked child starts: the parent's, with 0 in `rax`, user segments where the
-- parent has none, and interrupts enabled.
child_state : ℕ → ℕ → ProcessState → ProcessState
child_state user_cs user_ss s = record s {
  rax = 0;
  cs = if s.cs == 0 then user_cs else s.cs;
  ss = if s.ss == 0 then user_ss else s.ss;
  rflags = bit_or s.rflags 0x200;
}

-- The descriptors 0, 1 and 2 that `Process::new` opens: the places of the three new open files.
abbrev std_handles : ℕ → Table
std_handles opened = (0, opened) ∷ (1, opened + 1) ∷ (2, opened + 2) ∷ []

-- `Process::new`, with the pid that it takes; `opened` is the number of open files before it, `cr3_now` the address space.
process_new : Process → List ℕ → ℕ → ℕ → ℕ → Process
process_new parent name pid cr3_now opened = record {
  pid = pid;
  parent_pid = parent.pid;
  name = name;
  state = zero_state;
  status = created;
  cr3 = cr3_now;
  end = 0;
  entry_point = 0;
  file_handles = std_handles opened;
  cwd = parent.cwd;
  load_bias = 0;
  loaded = false;
  user_stack_top = 0;
  exit_code = none;
  envp = parent.envp;
  argv = [];
  priority = default_priority;
}

-- `fork_from`, on the address space that was cloned.
fork_from : Process → ProcessState → ℕ → ℕ → ℕ → ℕ → Process
unfolding process_new
fork_from parent state cr3 pid cr3_now opened =
    let p = process_new parent parent.name pid cr3_now opened in
    record p {
      cr3 = cr3;
      state = state;
      load_bias = parent.load_bias;
      end = parent.end;
      entry_point = parent.entry_point;
      user_stack_top = parent.user_stack_top;
      loaded = true;
      status = ready;
      file_handles = parent.file_handles;
      priority = parent.priority;
    }

-- `PROCESSES.push`, after `NEXT_PID` was taken.
push_child : Process → Machine → Machine × ℕ
push_child child m =
    let taken = record m { next_pid = m.next_pid + 1 } in
    if ltb (length m.procs) max_processes
    then (record taken { procs = m.procs ++ (child ∷ []) }, child.pid)
    else (taken, errno enomem)

-- `cloned` is what `clone_address_space` returns: the new CR3, or a failure; `opened` is the number of
-- open files.
unfoldable pub fork : ℕ → ℕ → Option ℕ → ℕ → Machine → Machine × ℕ
unfolding current_proc_mut child_state fork_from push_child
fork user_cs user_ss cloned opened m = elim (current_proc_mut m) [
  | none ↦ (m, errno eagain)
  | some parent ↦ elim cloned [
    | none ↦ (m, errno enomem)
    | some cr3 ↦
        push_child
          (fork_from parent (child_state user_cs user_ss parent.state) cr3 m.next_pid m.cr3_now
            opened)
          m
  ]
]

-- `rdi as i32 as u64`.
pub exit_value : ℕ → ℕ
exit_value rdi = let low = rdi % 2 ^ 32 in if ltb low (2 ^ 31) then low else u64_size - 2 ^ 32 + low

adopt : ℕ → Process → Process
adopt pid p = if p.parent_pid == pid then record p { parent_pid = 1 } else p

reparent : ℕ → List Process → List Process
unfolding adopt
reparent pid [] = []
reparent pid (p ∷ ps) = adopt pid p ∷ reparent pid ps

-- What `exit` does before it switches away: `none` is the panic where init exits.
pub exit_current : ℕ → Process → Machine → Option Machine
unfolding exit_value store_current reparent
exit_current rdi p m =
    let marked =
      store_current m (record p { exit_code = some (exit_value rdi); status = exited }) in
    if p.pid == 1 then none else some (record marked { procs = reparent p.pid marked.procs })

-- How `exit` ends: it returns to a caller that is no process, panics, or switches to the next
-- process, with its pid, CR3 and state.
pub data Exit : Type 0 where
  returned : Machine → ℕ → Exit
  panicked : Exit
  switched : Machine → ℕ → ℕ → ProcessState → Exit

switched_to : Machine → Option (ℕ × ℕ × ProcessState) → Exit
switched_to m none = panicked
switched_to m (some (pid, cr3, state)) = switched m pid cr3 state

-- `switch_to_next`: it panics where `schedule` returns nothing. `default` is the zeroed context.
unfoldable pub switch_to_next : ProcessState → Machine → Exit
unfolding force_reschedule schedule switched_to
switch_to_next default m =
    let r = schedule default (record m { sched = force_reschedule m.sched }) in switched_to r.0 r.1

exit_of : ℕ → ProcessState → Machine → Option Process → Exit
unfolding exit_current switch_to_next
exit_of rdi default m none = returned m 0
exit_of rdi default m (some p) = elim (exit_current rdi p m) [
  | none ↦ panicked
  | some m' ↦ switch_to_next default m'
]

unfoldable pub exit : ℕ → ProcessState → Machine → Exit
unfolding exit_of current_proc_mut
exit rdi default m = exit_of rdi default m (current_proc_mut m)

-- `Vec::swap_remove`: the last element takes the place of the removed one.
rotate_last : Process → List Process → Process × List Process
rotate_last p [] = (p, [])
rotate_last p (q ∷ qs) = let (l, front) = rotate_last q qs in (l, p ∷ front)

last_first : List Process → List Process
unfolding rotate_last
last_first [] = []
last_first (p ∷ ps) = let (l, front) = rotate_last p ps in l ∷ front

unfoldable pub swap_remove : List Process → ℕ → List Process
unfolding last_first
swap_remove [] i = []
swap_remove (p ∷ ps) zero = last_first ps
swap_remove (p ∷ ps) (suc i) = p ∷ swap_remove ps i

-- One turn of the loop of `waitpid`: it returns a value, with the CR3 of a process that was reaped
-- and is torn down, or yields to the scheduler and goes on with the target that it has chosen.
pub data Wait : Type 0 where
  failed : Machine → ℕ → Wait
  reaped : Machine → ℕ → ℕ → Wait
  yielded : Machine → ℕ → Wait

abbrev has_exited : Process → Bool
has_exited p = elim p.exit_code [ none ↦ false | some c ↦ true ]

find_index : (Process → Bool) → List Process → Option ℕ
find_index test [] = none
find_index test (p ∷ ps) =
    let rest = find_index test ps in
    if test p then some 0 else elim rest [ none ↦ none | some i ↦ some (suc i) ]

-- Reaps the process at an index, if it has left an exit code.
pub reap_at : Machine → ℕ → Option Process → Wait
unfolding swap_remove
reap_at m i none = failed m (errno no_process)
reap_at m i (some p) = elim p.exit_code [
  | none ↦ failed m (errno no_process)
  | some code ↦ reaped (record m { procs = swap_remove m.procs i }) code p.cr3
]

pub mark_waiting : ℕ → Machine → Machine
unfolding current_proc_mut store_current
mark_waiting target m = elim (current_proc_mut m) [
  | none ↦ m
  | some p ↦ store_current m (record p { status = waiting_for target })
]

-- The part of the turn for a certain target.
pub wait_target : ℕ → Machine → Wait
unfolding find_index reap_at mark_waiting
wait_target target m = elim (find_index (λ p. p.pid == target && has_exited p) m.procs) [
  | some i ↦ reap_at m i (get_elem? m.procs i)
  | none ↦ elim (find_index (λ p. p.pid == target) m.procs) [
    | some i ↦ yielded (mark_waiting target m) target
    | none ↦ failed m (errno no_process)
  ]
]

-- -1, as a `u64`, stands for any child.
abbrev pub any_child : ℕ
any_child = u64_max

wait_any : Machine → Wait
unfolding find_index reap_at wait_target
wait_any m = elim (find_index (λ p. p.parent_pid == m.percpu_pid && has_exited p) m.procs) [
  | some i ↦ reap_at m i (get_elem? m.procs i)
  | none ↦ elim (find_index (λ p. p.parent_pid == m.percpu_pid) m.procs) [
    | none ↦ failed m (errno echild)
    | some i ↦ elim (get_elem? m.procs i) [
      | none ↦ failed m (errno echild)
      | some child ↦ wait_target child.pid m
    ]
  ]
]

unfoldable pub wait_turn : ℕ → Machine → Wait
unfolding wait_any wait_target
wait_turn target m = if target == any_child then wait_any m else wait_target target m
