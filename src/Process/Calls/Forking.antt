-- ===== src/Process/Calls/Forking.antt =====
-- What `fork` (zenos-kernel/src/syscall/fork.rs) makes.
use zenos.Common.{
  ℕ, ◌+◌, ◌≤◌, ◌<◌, ◌≡◌, refl, [], ◌∷◌, ◌++◌, Option, none, some, ltb, ltb→lt, not_ltb→le, length,
  Bool-cases, inl, inr, ◌⊎◌, errno,
}
use zenos.Process.State.{ProcessState, Process, ready}
use zenos.Process.Scheduler.{Machine}
use zenos.Process.Calls.{
  max_processes, enomem, child_state, fork_from, push_child, fork, current_proc_mut,
}

-- A child as `fork` makes it from its parent.
abbrev pub IsChild : Process → ℕ → ℕ → Process → Type 0
IsChild parent pid cr3 c =
    (c.pid ≡ pid)
    × (c.parent_pid ≡ parent.pid)
    × (c.cr3 ≡ cr3)
    × (c.status ≡ ready)
    × (c.exit_code ≡ none)
    × (c.state.rax ≡ 0)
    × (c.state.rip ≡ parent.state.rip)
    × (c.state.rsp ≡ parent.state.rsp)
    × (c.file_handles ≡ parent.file_handles)
    × (c.priority ≡ parent.priority)

-- What `fork` may return: an error that changes no process, or the pid of a new child at the end of
-- the list.
abbrev pub Forks : Process → Option ℕ → Machine → Machine × ℕ → Type 0
Forks parent none m (n, r) = (n ≡ m) × (r ≡ errno enomem)
Forks parent (some cr3) m (n, r) =
    (n.next_pid ≡ m.next_pid + 1)
    × (n.sched ≡ m.sched)
    × (((max_processes ≤ length m.procs) × (n.procs ≡ m.procs) × (r ≡ errno enomem))
        ⊎ ((length m.procs < max_processes)
            × (r ≡ m.next_pid)
            × ((c : Process) × (n.procs ≡ m.procs ++ (c ∷ [])) × IsChild parent m.next_pid cr3 c)))

-- `fork` by a process: without an address space it fails and changes nothing; with one it takes a
-- pid, and where 256 processes exist it fails and changes no process, else it returns the pid to the
-- parent and appends a child that is ready, returns 0 from the same place in the program, and has
-- the parent's descriptors and priority.
pub fork-Forks :
    (user_cs user_ss opened : ℕ) (cloned : Option ℕ) (m : Machine) (parent : Process)
    → current_proc_mut m ≡ some parent
    → Forks parent cloned m (fork user_cs user_ss cloned opened m)
unfolding fork push_child fork_from child_state
fork-Forks user_cs user_ss opened none m parent e = rw (e, fork) (refl, refl)
fork-Forks user_cs user_ss opened (some cr3) m parent e =
    rw (e, fork)
      (push_child-Forks parent cr3 m
        (fork_from parent (child_state user_cs user_ss parent.state) cr3 m.next_pid m.cr3_now
          opened)
        (from_parent parent (child_state user_cs user_ss parent.state) cr3 m.next_pid m.cr3_now
          opened refl refl refl))
  where
    push_child-Forks :
        (parent : Process) (cr3 : ℕ) (m : Machine) (c : Process)
        → IsChild parent m.next_pid cr3 c
        → Forks parent (some cr3) m (push_child c m)
    push_child-Forks parent cr3 m c h = elim (Bool-cases (ltb (length m.procs) max_processes)) [
      | inl lt ↦ rw (lt, push_child) (refl, refl, inr (ltb→lt _ _ lt, h.0, (c, refl, h)))
      | inr ge ↦ rw (ge, push_child) (refl, refl, inl (not_ltb→le _ _ ge, refl, refl))
    ]

    from_parent :
        (parent : Process) (s : ProcessState) (cr3 pid now opened : ℕ)
        → s.rax ≡ 0
        → s.rip ≡ parent.state.rip
        → s.rsp ≡ parent.state.rsp
        → IsChild parent pid cr3 (fork_from parent s cr3 pid now opened)
    from_parent parent s cr3 pid now opened a b c =
        (refl, refl, refl, refl, refl, a, b, c, refl, refl)
