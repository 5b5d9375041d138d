-- ===== src/Process/Calls/Sound.antt =====
-- The invariant of the list of processes, for each call of zenos-kernel/src/syscall by itself.
use mathlib.Core.List.{Permᴰ}
use zenos.Common.{
  ℕ, ◌+◌, ◌<◌, ◌≡◌, ◌≢◌, refl, sym, ap, ◌∙◌, subst, List, [], ◌∷◌, ◌++◌, Option, none, some, arith,
  if_of_true, if_of_false, ◌==◌, get_elem?, All, All-set, All-append, All-get, Bool-cases,
  Option-cases, inl, inr,
}
use zenos.Process.State.{ProcessState, Process, running, ready, blocked, waiting_for, exited}
use zenos.Process.Scheduler.{Machine, schedule}
use zenos.Process.Scheduler.Fresh.{Below, schedule-Keeps}
use zenos.Process.Scheduler.Exclusive.{
  Distinct, RunsOnly, Exclusive, schedule-Exclusive, set-Distinct,
}
use zenos.Process.Calls.{
  current_proc_mut, store_current, block_current_process, fork, adopt, reparent, exit_current,
  exit_value, mark_waiting,
}
use zenos.Process.Calls.Forking.{Forks, fork-Forks}

-- No two processes share a pid, only the current one runs, and the next pid was never given out.
pub record Sound (m : Machine) : Type 0 where
  pub distinct : Distinct m.procs
  pub runs_only : RunsOnly m.sched.current_pid m.procs
  pub below : Below m.next_pid m.procs

pub schedule-Sound : (ctx : ProcessState) (m : Machine) → Sound m → Sound (schedule ctx m).0
schedule-Sound ctx m h =
    let e : Exclusive (schedule ctx m).0 =
      schedule-Exclusive ctx m (record { distinct = h.distinct; runs_only = h.runs_only }) in
    let (a, same) = schedule-Keeps ctx m h.below in
    record {
      distinct = e.distinct;
      runs_only = e.runs_only;
      below = subst (λ k. Below k (schedule ctx m).0.procs) (sym same) a;
    }

-- Storing the current process back, with its pid and not running.
store_current-Sound :
    (m : Machine) (p q : Process)
    → current_proc_mut m ≡ some q
    → p.pid ≡ q.pid
    → p.status ≢ running
    → Sound m
    → Sound (store_current m p)
unfolding store_current current_proc_mut
store_current-Sound m p q e same stopped h = elim (Option-cases m.current_proc) [
  | inl n ↦ rw n (record { distinct = h.distinct; runs_only = h.runs_only; below = h.below })
  | inr (i, c) ↦
      let at_i : get_elem? m.procs i ≡ some q = ground arith in
      rw c (record {
        distinct = set-Distinct m.procs i p q at_i same h.distinct;
        runs_only = All-set _ m.procs i p h.runs_only (λ r. absurd (stopped r));
        below =
            All-set (λ x. x.pid < m.next_pid) m.procs i p h.below
              (subst (λ k. k < m.next_pid) (sym same)
                (All-get (λ x. x.pid < m.next_pid) m.procs i h.below at_i));
      })
]

pub block_current_process-Sound :
    (lock : ℕ) (m : Machine) → Sound m → Sound (block_current_process lock m)
unfolding block_current_process
block_current_process-Sound lock m h = elim (Option-cases (current_proc_mut m)) [
  | inl e ↦ rw (e, block_current_process) h
  | inr (p, e) ↦
      rw (e, block_current_process)
        (store_current-Sound m (record p { status = blocked lock }) p e refl (λ r. cc) h)
]

pub mark_waiting-Sound : (target : ℕ) (m : Machine) → Sound m → Sound (mark_waiting target m)
unfolding mark_waiting
mark_waiting-Sound target m h = elim (Option-cases (current_proc_mut m)) [
  | inl e ↦ rw (e, mark_waiting) h
  | inr (p, e) ↦
      rw (e, mark_waiting)
        (store_current-Sound m (record p { status = waiting_for target }) p e refl (λ r. cc) h)
]

adopt-pid : (pid : ℕ) (p : Process) → (adopt pid p).pid ≡ p.pid
unfolding adopt
adopt-pid pid p = ground arith

adopt-status : (pid : ℕ) (p : Process) → (adopt pid p).status ≡ p.status
unfolding adopt
adopt-status pid p = ground arith

reparent-others :
    (pid k : ℕ) (ps : List Process)
    → All (λ q. q.pid ≢ k) ps
    → All (λ q. q.pid ≢ k) (reparent pid ps)
unfolding reparent
reparent-others pid k [] a = tt
reparent-others pid k (p ∷ ps) a = (rw (adopt-pid pid p) a.0, reparent-others pid k ps a.1)

reparent-Distinct : (pid : ℕ) (ps : List Process) → Distinct ps → Distinct (reparent pid ps)
unfolding reparent
reparent-Distinct pid [] d = tt
reparent-Distinct pid (p ∷ ps) d =
    (rw (adopt-pid pid p) (reparent-others pid p.pid ps d.0), reparent-Distinct pid ps d.1)

reparent-RunsOnly :
    (pid : ℕ) (current : Option ℕ) (ps : List Process)
    → RunsOnly current ps
    → RunsOnly current (reparent pid ps)
unfolding reparent
reparent-RunsOnly pid current [] a = tt
reparent-RunsOnly pid current (p ∷ ps) a =
    (rw (adopt-pid pid p, adopt-status pid p) a.0, reparent-RunsOnly pid current ps a.1)

reparent-Below : (pid k : ℕ) (ps : List Process) → Below k ps → Below k (reparent pid ps)
unfolding reparent
reparent-Below pid k [] a = tt
reparent-Below pid k (p ∷ ps) a = (rw (adopt-pid pid p) a.0, reparent-Below pid k ps a.1)

pub exit_current-Sound :
    (rdi : ℕ) (p : Process) (m n : Machine)
    → current_proc_mut m ≡ some p
    → exit_current rdi p m ≡ some n
    → Sound m
    → Sound n
unfolding exit_current
exit_current-Sound rdi p m n e out h =
    let z : Process = record p { exit_code = some (exit_value rdi); status = exited } in
    let marked : Machine = store_current m z in
    let s : Sound marked = store_current-Sound m z p e refl (λ r. cc) h in
    elim (Bool-cases (p.pid == 1)) [
      | inl init ↦ absurd (none-ne-some (sym (if_of_true none _ init) ∙ out))
      | inr other ↦
          subst Sound
            (some-injective (
              sym (
                if_of_false none (some (record marked { procs = reparent p.pid marked.procs }))
                  other)
              ∙ out))
            (record {
              distinct = reparent-Distinct p.pid marked.procs s.distinct;
              runs_only = reparent-RunsOnly p.pid marked.sched.current_pid marked.procs s.runs_only;
              below = reparent-Below p.pid marked.next_pid marked.procs s.below;
            })
    ]
  where
    none-ne-some : {x : Machine} → none ≡ some x → ⊥
    none-ne-some q = cc

    some-injective : {x y : Machine} → some x ≡ some y → x ≡ y
    some-injective q = cc

All-perm : {A : Type 0} (P : A → Type 0) {xs ys : List A} → Permᴰ xs ys → All P ys → All P xs
All-perm P Permᴰ.nil a = tt
All-perm P (Permᴰ.cons e d) a = (subst P (sym e) a.0, All-perm P d a.1)
All-perm P (Permᴰ.swap e e') a = (subst P (sym e) a.1.0, (subst P (sym e') a.0, a.1.1))
All-perm P (Permᴰ.trans d d') a = All-perm P d (All-perm P d' a)

Distinct-perm : {xs ys : List Process} → Permᴰ xs ys → Distinct ys → Distinct xs
Distinct-perm Permᴰ.nil a = tt
Distinct-perm (Permᴰ.cons {l₁ = xs} e d) a =
    (subst (λ x. All (λ q. q.pid ≢ x.pid) xs) (sym e) (All-perm _ d a.0), Distinct-perm d a.1)
Distinct-perm (Permᴰ.swap {a = x} {b = y} {l = l} e e') a =
    let y_ne : y.pid ≢ x.pid =
      (λ q. a.0.0 (ap (λ p. p.pid) (sym e) ∙ sym q ∙ ap (λ p. p.pid) e')) in
    (
      (y_ne, subst (λ p. All (λ q. q.pid ≢ p.pid) l) (sym e) a.1.0),
      (subst (λ p. All (λ q. q.pid ≢ p.pid) l) (sym e') a.0.1, a.1.1),
    )
Distinct-perm (Permᴰ.trans d d') a = Distinct-perm d (Distinct-perm d' a)

pub reaped-Sound :
    (m n : Machine) (z : Process)
    → Permᴰ (z ∷ n.procs) m.procs
    → n.sched ≡ m.sched
    → n.next_pid ≡ m.next_pid
    → Sound m
    → Sound n
reaped-Sound m n z d s k h = record {
  distinct = (Distinct-perm d h.distinct).1;
  runs_only =
      subst (λ c. RunsOnly c n.procs) (ap (λ x. x.current_pid) (sym s))
        (All-perm (λ p. p.status ≡ running → m.sched.current_pid ≡ some p.pid) d h.runs_only).1;
  below = subst (λ x. Below x n.procs) (sym k) (All-perm (λ p. p.pid < m.next_pid) d h.below).1;
}

pub fork-Sound :
    (user_cs user_ss opened : ℕ) (cloned : Option ℕ) (m : Machine)
    → Sound m
    → Sound (fork user_cs user_ss cloned opened m).0
unfolding fork
fork-Sound user_cs user_ss opened cloned m h = elim (Option-cases (current_proc_mut m)) [
  | inl e ↦ rw (e, fork) h
  | inr (p, e) ↦
      forked p cloned (fork user_cs user_ss cloned opened m)
        (fork-Forks user_cs user_ss opened cloned m p e)
]
  where
    below-later : (k : ℕ) (ps : List Process) → Below k ps → Below (k + 1) ps
    below-later k [] a = tt
    below-later k (p ∷ ps) a = (omega (arith, a.0), below-later k ps a.1)

    append-Distinct :
        (k : ℕ) (c : Process) (ps : List Process)
        → c.pid ≡ k
        → Below k ps
        → Distinct ps
        → Distinct (ps ++ (c ∷ []))
    append-Distinct k c [] e a d = (tt, tt)
    append-Distinct k c (p ∷ ps) e a d = (
      All-append (λ q. q.pid ≢ p.pid) ps (c ∷ []) d.0 ((λ q. omega (arith, a.0)), tt),
      append-Distinct k c ps e a.1 d.1,
    )

    grown :
        (n : Machine) (ps : List Process)
        → n.procs ≡ ps
        → n.next_pid ≡ m.next_pid + 1
        → n.sched ≡ m.sched
        → Distinct ps
        → RunsOnly m.sched.current_pid ps
        → Below (m.next_pid + 1) ps
        → Sound n
    grown n ps e k s d r b = record {
      distinct = subst Distinct (sym e) d;
      runs_only =
          subst (λ c. RunsOnly c n.procs) (ap (λ x. x.current_pid) (sym s))
            (subst (RunsOnly m.sched.current_pid) (sym e) r);
      below = subst (λ x. Below x n.procs) (sym k) (subst (Below (m.next_pid + 1)) (sym e) b);
    }

    ready_ne_running : ready ≡ running → ⊥
    ready_ne_running q = cc

    forked : (p : Process) (cl : Option ℕ) (r : Machine × ℕ) → Forks p cl m r → Sound r.0
    forked p none (n, r) (e, f) = subst Sound (sym e) h
    forked p (some cr3) (n, r) (k, s, inl (full, e, f)) =
        grown n m.procs e k s h.distinct h.runs_only (below-later m.next_pid m.procs h.below)
    forked p (some cr3) (n, r) (k, s, inr (room, f, (c, e, child))) =
        grown n (m.procs ++ (c ∷ [])) e k s
          (append-Distinct m.next_pid c m.procs child.0 h.below h.distinct)
          (All-append _ m.procs (c ∷ []) h.runs_only
            ((λ q. absurd (ready_ne_running (sym child.3 ∙ q))), tt))
          (All-append _ m.procs (c ∷ []) (below-later m.next_pid m.procs h.below)
            (omega (arith, child.0), tt))
