-- ===== src/Process/Scheduler/Exclusive.antt =====
-- Which processes are marked as running around `schedule`
-- (zenos-kernel/src/process/scheduler/mod.rs).
use zenos.Common.{
  ℕ, zero, suc, ◌≡◌, ◌≢◌, refl, sym, ◌∙◌, true, false, List, [], ◌∷◌, Option, none, some, arith,
  ◌==◌, get_elem?, set, remove_at, All, All-set, All-get, All-remove_at, Bool-cases, Option-cases,
  inl, inr, leb, is_empty, ◌≤◌, if_of_true, if_of_false, le→leb, leb→le, subst,
}
use zenos.Process.State.{
  ProcessState, ProcessStatus, Process, running, ready, created, exited, blocked, waiting_for,
  save_context,
}
use zenos.Process.Scheduler.{
  Machine, Scan, save_as, save_current, set_rax, reap, switch_in, pick, pick_at, reschedule_saved,
  reschedule, schedule, scan_all,
}

-- No two processes share a pid.
abbrev pub Distinct : List Process → Type 0
Distinct [] = Unit
Distinct (p ∷ ps) = All (λ q. q.pid ≢ p.pid) ps × Distinct ps

-- A running process is the scheduler's current one.
abbrev pub RunsOnly : Option ℕ → List Process → Type 0
RunsOnly current ps = All (λ p. p.status ≡ running → current ≡ some p.pid) ps

abbrev NoneRuns : List Process → Type 0
NoneRuns ps = All (λ p. p.status ≢ running) ps

save_as-pid :
    (ctx : ProcessState) (p : Process) (st : ProcessStatus) → (save_as ctx p st).pid ≡ p.pid
unfolding save_context
save_as-pid ctx p running = refl
save_as-pid ctx p (blocked f) = refl
save_as-pid ctx p ready = refl
save_as-pid ctx p created = refl
save_as-pid ctx p exited = refl
save_as-pid ctx p (waiting_for t) = refl

save_as-stops :
    (ctx : ProcessState) (p : Process) (st : ProcessStatus)
    → p.status ≡ st
    → (save_as ctx p st).status ≢ running
unfolding save_context
save_as-stops ctx p running e r = cc
save_as-stops ctx p (blocked f) e r = cc
save_as-stops ctx p ready e r = cc
save_as-stops ctx p created e r = cc
save_as-stops ctx p exited e r = cc
save_as-stops ctx p (waiting_for t) e r = cc

-- Where the current pid has left the list, none runs.
others-NoneRuns :
    (pid : ℕ) (ps : List Process) → All (λ q. q.pid ≢ pid) ps → RunsOnly (some pid) ps → NoneRuns ps
others-NoneRuns pid [] d r = tt
others-NoneRuns pid (p ∷ ps) d r =
    ((λ e. d.0 (ground (arith, r.0 e))), others-NoneRuns pid ps d.1 r.1)

nobody-NoneRuns : (ps : List Process) → RunsOnly none ps → NoneRuns ps
nobody-NoneRuns [] r = tt
nobody-NoneRuns (p ∷ ps) r = ((λ e. ground (arith, r.0 e)), nobody-NoneRuns ps r.1)

save_current-NoneRuns :
    (ctx : ProcessState) (current : Option ℕ) (ps : List Process)
    → Distinct ps
    → RunsOnly current ps
    → NoneRuns (save_current ctx current ps)
unfolding save_current
save_current-NoneRuns ctx none ps d r = nobody-NoneRuns ps r
save_current-NoneRuns ctx (some pid) [] d r = tt
save_current-NoneRuns ctx (some pid) (p ∷ ps) d r = elim (Bool-cases (p.pid == pid)) [
  | inl e ↦ rw e (
    save_as-stops ctx p p.status refl,
    others-NoneRuns pid ps (let e' : p.pid ≡ pid = ground arith in rw e' at d.0) r.1,
  )
  | inr e ↦ rw e ((λ s. ground (arith, r.0 s)), save_current-NoneRuns ctx (some pid) ps d.1 r.1)
]

save_current-others :
    (ctx : ProcessState) (current : Option ℕ) (pid : ℕ) (ps : List Process)
    → All (λ q. q.pid ≢ pid) ps
    → All (λ q. q.pid ≢ pid) (save_current ctx current ps)
unfolding save_current
save_current-others ctx none pid ps a = a
save_current-others ctx (some c) pid [] a = tt
save_current-others ctx (some c) pid (p ∷ ps) a = elim (Bool-cases (p.pid == c)) [
  | inl e ↦ rw e (rw (save_as-pid ctx p p.status) a.0, a.1)
  | inr e ↦ rw e (a.0, save_current-others ctx (some c) pid ps a.1)
]

save_current-Distinct :
    (ctx : ProcessState) (current : Option ℕ) (ps : List Process)
    → Distinct ps
    → Distinct (save_current ctx current ps)
unfolding save_current
save_current-Distinct ctx none ps d = d
save_current-Distinct ctx (some c) [] d = tt
save_current-Distinct ctx (some c) (p ∷ ps) d = elim (Bool-cases (p.pid == c)) [
  | inl e ↦ rw e (rw (save_as-pid ctx p p.status) d.0, d.1)
  | inr e ↦
      rw e
        (save_current-others ctx (some c) p.pid ps d.0, save_current-Distinct ctx (some c) ps d.1)
]

pub set-others :
    (pid : ℕ) (ps : List Process) (i : ℕ) (p : Process)
    → All (λ q. q.pid ≢ pid) ps
    → p.pid ≢ pid
    → All (λ q. q.pid ≢ pid) (set ps i p)
set-others pid ps i p a n = All-set (λ q. q.pid ≢ pid) ps i p a n

-- Storing a process over one with its pid keeps the pids apart.
pub set-Distinct :
    (ps : List Process) (i : ℕ) (p q : Process)
    → get_elem? ps i ≡ some q
    → p.pid ≡ q.pid
    → Distinct ps
    → Distinct (set ps i p)
set-Distinct [] i p q e same d = tt
set-Distinct (x ∷ ps) zero p q e same d =
    let x_pid : p.pid ≡ x.pid = ground arith in (rw x_pid d.0, d.1)
set-Distinct (x ∷ ps) (suc i) p q e same d = (
  set-others x.pid ps i p d.0 (λ h. All-get (λ y. y.pid ≢ x.pid) ps i d.0 e (sym same ∙ h)),
  set-Distinct ps i p q e same d.1,
)

remove_at-Distinct : (ps : List Process) (i : ℕ) → Distinct ps → Distinct (remove_at ps i)
remove_at-Distinct [] i d = tt
remove_at-Distinct (x ∷ ps) zero d = d.1
remove_at-Distinct (x ∷ ps) (suc i) d =
    (All-remove_at (λ q. q.pid ≢ x.pid) ps i d.0, remove_at-Distinct ps i d.1)

reap-Distinct : (r : Option ℕ) (ps : List Process) → Distinct ps → Distinct (reap r ps)
unfolding reap
reap-Distinct none ps d = d
reap-Distinct (some i) ps d = remove_at-Distinct ps i d

reap-RunsOnly :
    (current r : Option ℕ) (ps : List Process) → RunsOnly current ps → RunsOnly current (reap r ps)
unfolding reap
reap-RunsOnly current none ps a = a
reap-RunsOnly current (some i) ps a =
    All-remove_at (λ p. p.status ≡ running → current ≡ some p.pid) ps i a

NoneRuns-RunsOnly : (current : Option ℕ) (ps : List Process) → NoneRuns ps → RunsOnly current ps
NoneRuns-RunsOnly current [] n = tt
NoneRuns-RunsOnly current (p ∷ ps) n = ((λ e. absurd (n.0 e)), NoneRuns-RunsOnly current ps n.1)

set_rax-pid : (wake : Option (ℕ × ℕ)) (p : Process) → (set_rax wake p).pid ≡ p.pid
unfolding set_rax
set_rax-pid none p = refl
set_rax-pid (some (i, code)) p = refl

-- The scheduler's state between calls: distinct pids, and only the current process runs.
pub record Exclusive (m : Machine) : Type 0 where
  pub distinct : Distinct m.procs
  pub runs_only : RunsOnly m.sched.current_pid m.procs

switch_in-Exclusive :
    (b : ℕ) (p : Process) (s : Scan) (m : Machine) (ps : List Process)
    → get_elem? ps b ≡ some p
    → Distinct ps
    → NoneRuns ps
    → Exclusive (switch_in b p s m ps).0
unfolding switch_in
switch_in-Exclusive b p s m ps e d n =
    let next : Process = set_rax s.wake_idx p in
    let started : Process = record next { status = running } in
    record {
      distinct =
          reap-Distinct s.reap_idx (set ps b started)
            (set-Distinct ps b started p e (set_rax-pid s.wake_idx p) d);
      runs_only =
          reap-RunsOnly (some next.pid) s.reap_idx (set ps b started)
            (All-set _ ps b started (NoneRuns-RunsOnly (some next.pid) ps n) (λ _. refl));
    }

pick-Exclusive :
    (best : Option ℕ) (s : Scan) (m : Machine) (ps : List Process)
    → Distinct ps
    → NoneRuns ps
    → Exclusive (pick best s m ps).0
unfolding pick pick_at
pick-Exclusive none s m ps d n = record {
  distinct = d;
  runs_only = NoneRuns-RunsOnly m.sched.current_pid ps n;
}
pick-Exclusive (some b) s m ps d n = elim (Option-cases (get_elem? ps b)) [
  | inl e ↦ rw e (record { distinct = d; runs_only = NoneRuns-RunsOnly m.sched.current_pid ps n })
  | inr (p, e) ↦ rw e (switch_in-Exclusive b p s m ps e d n)
]

reschedule-Exclusive :
    (ctx : ProcessState) (m : Machine) → Exclusive m → Exclusive (reschedule ctx m).0
unfolding reschedule reschedule_saved
reschedule-Exclusive ctx m h =
    let ps = save_current ctx m.sched.current_pid m.procs in
    let d : Distinct ps = save_current-Distinct ctx m.sched.current_pid m.procs h.distinct in
    let n : NoneRuns ps =
      save_current-NoneRuns ctx m.sched.current_pid m.procs h.distinct h.runs_only in
    elim (Bool-cases (is_empty ps)) [
      | inl e ↦
          rw e (record { distinct = d; runs_only = NoneRuns-RunsOnly m.sched.current_pid ps n })
      | inr e ↦ rw e (pick-Exclusive (scan_all m.flag ps).best_idx (scan_all m.flag ps) m ps d n)
    ]

-- A tick within the time slice, with the lock free, reschedules.
pub schedule_free :
    (ctx : ProcessState) (m : Machine)
    → m.sched.time ≤ m.sched.quantum
    → m.locked ≡ false
    → schedule ctx m ≡ reschedule ctx m
unfolding schedule
schedule_free ctx m h l = if_of_true _ _ (le→leb m.sched.time m.sched.quantum h) ∙ if_of_false _ _ l

pub schedule_locked :
    (ctx : ProcessState) (m : Machine)
    → m.sched.time ≤ m.sched.quantum
    → m.locked ≡ true
    → schedule ctx m ≡ (m, none)
unfolding schedule
schedule_locked ctx m h l =
    if_of_true _ _ (le→leb m.sched.time m.sched.quantum h) ∙ if_of_true _ _ l

-- Whatever the context, the lock, the flags and the processes: if no two processes share a pid and
-- only the scheduler's current process is marked as running, then the same holds after `schedule`.
pub schedule-Exclusive :
    (ctx : ProcessState) (m : Machine) → Exclusive m → Exclusive (schedule ctx m).0
unfolding schedule
schedule-Exclusive ctx m h = elim (Bool-cases (leb m.sched.time m.sched.quantum)) [
  | inr e ↦ rw (e, schedule) (record { distinct = h.distinct; runs_only = h.runs_only })
  | inl e ↦ elim (Bool-cases m.locked) [
    | inl l ↦
        subst (λ r. Exclusive r.0)
          (sym (schedule_locked ctx m (leb→le m.sched.time m.sched.quantum e) l)) h
    | inr l ↦
        subst (λ r. Exclusive r.0)
          (sym (schedule_free ctx m (leb→le m.sched.time m.sched.quantum e) l))
          (reschedule-Exclusive ctx m h)
  ]
]
