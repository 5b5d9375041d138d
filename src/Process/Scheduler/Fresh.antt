-- ===== src/Process/Scheduler/Fresh.antt =====
-- `schedule` (zenos-kernel/src/process/scheduler/mod.rs) and the pids.
use zenos.Common.{
  ℕ, ◌<◌, ◌≡◌, refl, List, [], ◌∷◌, Option, none, some, ◌==◌, leb, is_empty, if_cases, get_elem?,
  set, All, All-set, All-get, All-remove_at, Option-cases, inl, inr,
}
use zenos.Process.State.{
  ProcessState, ProcessStatus, Process, running, ready, blocked, waiting_for, created, exited,
  save_context,
}
use zenos.Process.Scheduler.{
  Machine, Scan, save_as, save_current, set_rax, reap, switch_in, pick_at, pick, reschedule_saved,
  reschedule, schedule, scan_all,
}

-- Every pid lies below the next one.
abbrev pub Below : ℕ → List Process → Type 0
Below k ps = All (λ p. p.pid < k) ps

save_as-below :
    (k : ℕ) (ctx : ProcessState) (p : Process) (st : ProcessStatus)
    → p.pid < k
    → (save_as ctx p st).pid < k
unfolding save_context
save_as-below k ctx p running h = h
save_as-below k ctx p (blocked f) h = h
save_as-below k ctx p ready h = h
save_as-below k ctx p created h = h
save_as-below k ctx p exited h = h
save_as-below k ctx p (waiting_for t) h = h

save_current-Below :
    (k : ℕ) (ctx : ProcessState) (current : Option ℕ) (ps : List Process)
    → Below k ps
    → Below k (save_current ctx current ps)
unfolding save_current
save_current-Below k ctx none ps a = a
save_current-Below k ctx (some c) [] a = tt
save_current-Below k ctx (some c) (p ∷ ps) a =
    if_cases (Below k) (p.pid == c) (λ _. (save_as-below k ctx p p.status a.0, a.1))
      (λ _. (a.0, save_current-Below k ctx (some c) ps a.1))

reap-Below : (k : ℕ) (r : Option ℕ) (ps : List Process) → Below k ps → Below k (reap r ps)
unfolding reap
reap-Below k none ps a = a
reap-Below k (some i) ps a = All-remove_at (λ p. p.pid < k) ps i a

set_rax-below : (k : ℕ) (wake : Option (ℕ × ℕ)) (p : Process) → p.pid < k → (set_rax wake p).pid < k
unfolding set_rax
set_rax-below k none p h = h
set_rax-below k (some (i, code)) p h = h

-- The pids stay below the next one, which a call leaves alone.
abbrev pub Keeps : Machine → Machine → Type 0
Keeps m n = Below m.next_pid n.procs × (n.next_pid ≡ m.next_pid)

switch_in-Keeps :
    (b : ℕ) (p : Process) (s : Scan) (m : Machine) (ps : List Process)
    → get_elem? ps b ≡ some p
    → Below m.next_pid ps
    → Keeps m (switch_in b p s m ps).0
unfolding switch_in
switch_in-Keeps b p s m ps e a =
    let next : Process = set_rax s.wake_idx p in
    let started : Process = record next { status = running } in
    (
      reap-Below m.next_pid s.reap_idx (set ps b started) (
          All-set (λ q. q.pid < m.next_pid) ps b started a
            (set_rax-below m.next_pid s.wake_idx p (All-get (λ q. q.pid < m.next_pid) ps b a e))),
      refl,
    )

pick-Keeps :
    (best : Option ℕ) (s : Scan) (m : Machine) (ps : List Process)
    → Below m.next_pid ps
    → Keeps m (pick best s m ps).0
unfolding pick pick_at
pick-Keeps none s m ps a = (a, refl)
pick-Keeps (some b) s m ps a = elim (Option-cases (get_elem? ps b)) [
  | inl e ↦ rw e (a, refl)
  | inr (p, e) ↦ rw e (switch_in-Keeps b p s m ps e a)
]

pub schedule-Keeps :
    (ctx : ProcessState) (m : Machine) → Below m.next_pid m.procs → Keeps m (schedule ctx m).0
unfolding schedule reschedule reschedule_saved
schedule-Keeps ctx m a =
    let P = λ (r : Machine × Option (ℕ × ℕ × ProcessState)). Keeps m r.0 in
    let ps = save_current ctx m.sched.current_pid m.procs in
    let b : Below m.next_pid ps = save_current-Below m.next_pid ctx m.sched.current_pid m.procs a in
    if_cases P (leb m.sched.time m.sched.quantum)
      (λ _.
        if_cases P m.locked (λ _. (a, refl))
          (λ _.
            if_cases P (is_empty ps) (λ _. (b, refl))
              (λ _. pick-Keeps (scan_all m.flag ps).best_idx (scan_all m.flag ps) m ps b)))
      (λ _. (a, refl))
