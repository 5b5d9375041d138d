-- ===== src/Process/Scheduler/Wake.antt =====
-- Waking a process in `schedule` (zenos-kernel/src/process/scheduler/mod.rs): who gets the exit code,
-- what happens to a blocked process, and where the per-CPU pointer points afterwards.
use zenos.Common.{
  ℕ, suc, ◌≤◌, ◌<◌, ◌≡◌, refl, ap, ◌∙◌, Bool, List, [], ◌∷◌, Option, none, some, arith, get_elem?,
  get_elem?-lt, get_elem?-set_self, get_elem?-set_ne, get_elem?-remove_at_after,
  get_elem?-remove_at_before, set, remove_at, All, ==_refl, if_of_true,
}
use zenos.Process.State.{
  ProcessState, ProcessStatus, Process, running, ready, created, exited, blocked, waiting_for,
  save_context,
}
use zenos.Process.Scheduler.{
  Machine, Scan, position, exit_code_at, scan_status, scan, scan_start, scan_all, save_as,
  save_current, set_rax, reap, switch_in, pick, pick_at, reschedule_saved, reschedule, max_priority,
}

-- A process that is not better than the best so far changes nothing in the pass.
scan_status-stays :
    (flag : ℕ → Bool) (all : List Process) (i : ℕ) (p : Process) (st : ProcessStatus) (s : Scan)
    → s.best_priority ≤ p.priority
    → scan_status flag all i p st s ≡ s
unfolding scan_status
scan_status-stays flag all i p ready s h = ground arith
scan_status-stays flag all i p (blocked f) s h = ground arith
scan_status-stays flag all i p (waiting_for t) s h = ground arith
scan_status-stays flag all i p running s h = refl
scan_status-stays flag all i p created s h = refl
scan_status-stays flag all i p exited s h = refl

scan-stays :
    (flag : ℕ → Bool) (all : List Process) (i : ℕ) (ps : List Process) (s : Scan)
    → All (λ q. s.best_priority ≤ q.priority) ps
    → scan flag all i ps s ≡ s
unfolding scan
scan-stays flag all i [] s h = refl
scan-stays flag all i (p ∷ ps) s h =
    rw (scan_status-stays flag all i p p.status s h.0) (scan-stays flag all (suc i) ps s h.1)

-- A ready process that is better is taken, and the marks for waking and reaping stay.
scan_status-ready :
    (flag : ℕ → Bool) (all : List Process) (i : ℕ) (p : Process) (s : Scan)
    → p.status ≡ ready
    → p.priority < s.best_priority
    → scan_status flag all i p p.status s
      ≡ record s { best_idx = some i; best_priority = p.priority }
unfolding scan_status
scan_status-ready flag all i p s e h = ground arith

-- A process whose target has left an exit code is taken, with the marks for it.
scan_status-woken :
    (flag : ℕ → Bool) (all : List Process) (i : ℕ) (p : Process) (s : Scan) (t k c : ℕ)
    → p.status ≡ waiting_for t
    → position t all ≡ some k
    → exit_code_at all (some k) ≡ some c
    → p.priority < s.best_priority
    → scan_status flag all i p p.status s ≡ record {
      best_idx = some i;
      best_priority = p.priority;
      reap_idx = some k;
      wake_idx = some (i, c);
    }
unfolding scan_status
scan_status-woken flag all i p s t k c e pos code h = ground arith

-- The list after the current process is saved, and what the pass makes of it, decide the outcome.
reschedule_at :
    (ctx : ProcessState) (m : Machine) (p : Process) (ps : List Process) (b : ℕ) (q : Process)
    (s : Scan)
    → save_current ctx m.sched.current_pid m.procs ≡ p ∷ ps
    → scan_all m.flag (p ∷ ps) ≡ s
    → s.best_idx ≡ some b
    → get_elem? (p ∷ ps) b ≡ some q
    → reschedule ctx m ≡ switch_in b q s m (p ∷ ps)
unfolding reschedule reschedule_saved pick pick_at
reschedule_at ctx m p ps b q s e es eb eq =
    ap (λ x. reschedule_saved x m) e
    ∙ ap (λ (x : Scan). pick x.best_idx x m (p ∷ ps)) es
    ∙ ap (λ x. pick x s m (p ∷ ps)) eb
    ∙ ap (λ x. pick_at b x s m (p ∷ ps)) eq

-- `save_current` on the process at the head that the scheduler takes for the current one.
save_current_blocked :
    (ctx : ProcessState) (p : Process) (ps : List Process) (f : ℕ)
    → p.status ≡ blocked f
    → save_current ctx (some p.pid) (p ∷ ps) ≡ record p { state = ctx; status = ready } ∷ ps
unfolding save_current save_context
save_current_blocked ctx p ps f e =
    if_of_true _ _ (==_refl p.pid) ∙ ap (λ st. save_as ctx p st ∷ ps) e

scan_all-head :
    (flag : ℕ → Bool) (p : Process) (ps : List Process)
    → p.status ≡ ready
    → p.priority < max_priority
    → All (λ q. p.priority ≤ q.priority) ps
    → scan_all flag (p ∷ ps)
      ≡ record { best_idx = some 0; best_priority = p.priority; reap_idx = none; wake_idx = none }
unfolding scan_all scan
scan_all-head flag p ps e top rest =
    ap (scan flag (p ∷ ps) 1 ps) (scan_status-ready flag (p ∷ ps) 0 p scan_start e top)
    ∙ scan-stays flag (p ∷ ps) 1 ps _ rest

scan_all-woken :
    (flag : ℕ → Bool) (w : Process) (ps : List Process) (t k c : ℕ)
    → w.status ≡ waiting_for t
    → position t (w ∷ ps) ≡ some k
    → exit_code_at (w ∷ ps) (some k) ≡ some c
    → w.priority < max_priority
    → All (λ q. w.priority ≤ q.priority) ps
    → scan_all flag (w ∷ ps) ≡ record {
      best_idx = some 0;
      best_priority = w.priority;
      reap_idx = some k;
      wake_idx = some (0, c);
    }
unfolding scan_all scan
scan_all-woken flag w ps t k c st pos code top rest =
    ap (scan flag (w ∷ ps) 1 ps)
      (scan_status-woken flag (w ∷ ps) 0 w scan_start t k c st pos code top)
    ∙ scan-stays flag (w ∷ ps) 1 ps _ rest

scan_all-overtaken :
    (flag : ℕ → Bool) (w r : Process) (ps : List Process) (t k c : ℕ)
    → w.status ≡ waiting_for t
    → position t (w ∷ r ∷ ps) ≡ some k
    → exit_code_at (w ∷ r ∷ ps) (some k) ≡ some c
    → w.priority < max_priority
    → r.status ≡ ready
    → r.priority < w.priority
    → All (λ q. r.priority ≤ q.priority) ps
    → scan_all flag (w ∷ r ∷ ps) ≡ record {
      best_idx = some 1;
      best_priority = r.priority;
      reap_idx = some k;
      wake_idx = some (0, c);
    }
unfolding scan_all scan
scan_all-overtaken flag w r ps t k c st pos code top rdy better rest =
    ap (λ s. scan flag (w ∷ r ∷ ps) 1 (r ∷ ps) s)
      (scan_status-woken flag (w ∷ r ∷ ps) 0 w scan_start t k c st pos code top)
    ∙ ap (scan flag (w ∷ r ∷ ps) 2 ps) (scan_status-ready flag (w ∷ r ∷ ps) 1 r _ rdy better)
    ∙ scan-stays flag (w ∷ r ∷ ps) 2 ps _ rest

set_rax-pid : (wake : Option (ℕ × ℕ)) (p : Process) → (set_rax wake p).pid ≡ p.pid
unfolding set_rax
set_rax-pid none p = refl
set_rax-pid (some (i, code)) p = refl

-- A current process that blocks itself on a flag runs again at once, with the flag up or down, where
-- nobody outranks it: saving its context makes it ready. It stands first in the list.
reschedule-forgets_block :
    (ctx : ProcessState) (m : Machine) (p : Process) (ps : List Process) (f : ℕ)
    → m.procs ≡ p ∷ ps
    → m.sched.current_pid ≡ some p.pid
    → p.status ≡ blocked f
    → p.priority < max_priority
    → All (λ q. p.priority ≤ q.priority) ps
    → (reschedule ctx m).1 ≡ some (p.pid, p.cr3, ctx)
unfolding switch_in
reschedule-forgets_block ctx m p ps f e c st top rest =
    let p' : Process = record p { state = ctx; status = ready } in
    let saved : save_current ctx m.sched.current_pid m.procs ≡ p' ∷ ps =
      ap (λ x. save_current ctx m.sched.current_pid x) e
      ∙ ap (λ x. save_current ctx x (p ∷ ps)) c
      ∙ save_current_blocked ctx p ps f st in
    ap (λ r. r.1)
      (reschedule_at ctx m p' ps 0 p' _ saved (scan_all-head m.flag p' ps refl top rest) refl refl)

-- After a switch without a reaped process, or with one behind the chosen place, the per-CPU pointer
-- leads to the process that was switched to. With one before that place it leads to the next process
-- of the list instead, since the removal moves the later ones down.
pub switch_in-current_proc :
    (b : ℕ) (p : Process) (s : Scan) (m : Machine) (ps : List Process)
    → get_elem? ps b ≡ some p
    → let r = (switch_in b p s m ps).0 in
      (r.current_proc ≡ some b)
      × (r.percpu_pid ≡ p.pid)
      × (s.reap_idx ≡ none
          → (q : Process) × (get_elem? r.procs b ≡ some q) × (q.pid ≡ p.pid) × (q.status ≡ running))
      × ((k : ℕ)
          → s.reap_idx ≡ some k
          → b < k
          → (q : Process) × (get_elem? r.procs b ≡ some q) × (q.pid ≡ p.pid) × (q.status ≡ running))
      × ((k : ℕ) → s.reap_idx ≡ some k → k < b → get_elem? r.procs b ≡ get_elem? ps (suc b))
unfolding switch_in reap
switch_in-current_proc b p s m ps e =
    let next : Process = set_rax s.wake_idx p in
    let started : Process = record next { status = running } in
    let stored : get_elem? (set ps b started) b ≡ some started =
      get_elem?-set_self ps b started (get_elem?-lt ps b e) in
    (
      refl,
      set_rax-pid s.wake_idx p,
      (λ r. (
        started,
        ap (λ x. get_elem? (reap x (set ps b started)) b) r ∙ stored,
        set_rax-pid s.wake_idx p,
        refl,
      )),
      (λ k r lt. (
        started,
        ap (λ x. get_elem? (reap x (set ps b started)) b) r
            ∙ get_elem?-remove_at_before (set ps b started) k b lt
            ∙ stored,
        set_rax-pid s.wake_idx p,
        refl,
      )),
      λ k r lt.
          ap (λ x. get_elem? (reap x (set ps b started)) b) r
          ∙ get_elem?-remove_at_after (set ps b started) k b (omega arith)
          ∙ get_elem?-set_ne ps started (λ (h : b ≡ suc b). omega arith),
    )

-- A process that waits for one that has exited gets its exit code in `rax`, and the exited one is
-- removed, where no process outranks the waiting one and it stands first in the list.
pub reschedule-delivers :
    (ctx : ProcessState) (m : Machine) (w : Process) (ps : List Process) (t k c : ℕ)
    → save_current ctx m.sched.current_pid m.procs ≡ w ∷ ps
    → w.status ≡ waiting_for t
    → position t (w ∷ ps) ≡ some k
    → exit_code_at (w ∷ ps) (some k) ≡ some c
    → w.priority < max_priority
    → All (λ q. w.priority ≤ q.priority) ps
    → let started =
        (let s = w.state in record w { state = record s { rax = c }; status = running }) in
      ((reschedule ctx m).1 ≡ some (w.pid, w.cr3, started.state))
      × ((reschedule ctx m).0.procs ≡ remove_at (started ∷ ps) k)
unfolding switch_in set_rax reap
reschedule-delivers ctx m w ps t k c saved st pos code top rest =
    let e =
      reschedule_at ctx m w ps 0 w _ saved (scan_all-woken m.flag w ps t k c st pos code top rest)
        refl refl in
    (ap (λ r. r.1) e, ap (λ r. r.0.procs) e)

-- Where a ready process outranks the waiting one, it is the ready process that runs, but with the
-- exit code in its `rax`; the exited process is removed all the same, and the waiting one goes on
-- waiting for it.
pub reschedule-misdelivers :
    (ctx : ProcessState) (m : Machine) (w r : Process) (ps : List Process) (t k c : ℕ)
    → save_current ctx m.sched.current_pid m.procs ≡ w ∷ r ∷ ps
    → w.status ≡ waiting_for t
    → position t (w ∷ r ∷ ps) ≡ some k
    → exit_code_at (w ∷ r ∷ ps) (some k) ≡ some c
    → w.priority < max_priority
    → r.status ≡ ready
    → r.priority < w.priority
    → All (λ q. r.priority ≤ q.priority) ps
    → let started =
        (let s = r.state in record r { state = record s { rax = c }; status = running }) in
      ((reschedule ctx m).1 ≡ some (r.pid, r.cr3, started.state))
      × ((reschedule ctx m).0.procs ≡ remove_at (w ∷ started ∷ ps) k)
unfolding switch_in set_rax reap
reschedule-misdelivers ctx m w r ps t k c saved st pos code top rdy better rest =
    let e =
      reschedule_at ctx m w (r ∷ ps) 1 r _ saved
        (scan_all-overtaken m.flag w r ps t k c st pos code top rdy better rest) refl refl in
    (ap (λ r. r.1) e, ap (λ r. r.0.procs) e)
