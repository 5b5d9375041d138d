-- ===== src/Process/Calls/Waiting.antt =====
-- What a turn of `waitpid` (zenos-kernel/src/syscall/wait.rs) does.
use mathlib.Core.List.{Permᴰ}
use zenos.Common.{
  ℕ, suc, ◌≡◌, ◌≢◌, refl, sym, Bool, true, false, ◌&&◌, List, [], ◌∷◌, Option, none, some, arith,
  ◌==◌, ==_refl, ==_iff, get_elem?, All, All-get, Bool-cases, Option-cases, inl, inr, ◌⊎◌, errno,
}
use zenos.Process.State.{Process}
use zenos.Process.Scheduler.{Machine}
use zenos.Process.Calls.{
  Wait, failed, reaped, yielded, has_exited, find_index, reap_at, mark_waiting, wait_target,
  wait_any, wait_turn, any_child, no_process, echild,
}
use zenos.Process.Calls.Reaping.{swap_remove-perm}

-- What `find_index` finds passes the test; where it finds nothing, nothing passes.
abbrev Finds : (Process → Bool) → List Process → Option ℕ → Type 0
Finds test ps none = All (λ p. test p ≡ false) ps
Finds test ps (some i) = (p : Process) × (get_elem? ps i ≡ some p) × (test p ≡ true)

Finds-later :
    (test : Process → Bool) (p : Process) (ps : List Process) (r : Option ℕ)
    → test p ≡ false
    → Finds test ps r
    → Finds test (p ∷ ps) (elim r [ none ↦ none | some i ↦ some (suc i) ])
Finds-later test p ps none e h = (e, h)
Finds-later test p ps (some i) e h = h

find_index-Finds : (test : Process → Bool) (ps : List Process) → Finds test ps (find_index test ps)
unfolding find_index
find_index-Finds test [] = tt
find_index-Finds test (p ∷ ps) = elim (Bool-cases (test p)) [
  | inl e ↦ rw e (p, refl, e)
  | inr e ↦ rw e (Finds-later test p ps (find_index test ps) e (find_index-Finds test ps))
]

-- The part of a turn for a certain target: it reaps a process of that pid that has exited, fails
-- without a change where no process has the pid, or yields where one has and none has exited.
abbrev pub WaitsFor : ℕ → Machine → Wait → Type 0
WaitsFor t m (failed n e) =
    (n ≡ m) × (e ≡ errno no_process) × All (λ p. (p.pid == t) ≡ false) m.procs
WaitsFor t m (reaped n code cr3) =
    (z : Process) × Permᴰ (z ∷ n.procs) m.procs
    × (z.exit_code ≡ some code)
    × (z.cr3 ≡ cr3)
    × (z.pid ≡ t)
    × (n.sched ≡ m.sched)
    × (n.next_pid ≡ m.next_pid)
WaitsFor t m (yielded n u) =
    (u ≡ t)
    × (n ≡ mark_waiting t m)
    × All (λ p. (p.pid == t && has_exited p) ≡ false) m.procs
    × ((p : Process) × (i : ℕ) × (get_elem? m.procs i ≡ some p) × (p.pid ≡ t))

exited_ne_none :
    (code : Option ℕ) → code ≡ none → elim code [ none ↦ false | some c ↦ true ] ≡ true → ⊥
exited_ne_none none e h = cc
exited_ne_none (some c) e h = cc

reap_at-exited :
    (t i : ℕ) (m : Machine) (p : Process)
    → get_elem? m.procs i ≡ some p
    → (p.pid == t) ≡ true
    → has_exited p ≡ true
    → WaitsFor t m (reap_at m i (some p))
unfolding reap_at
reap_at-exited t i m p e same done = elim (Option-cases p.exit_code) [
  | inl n ↦ absurd (exited_ne_none p.exit_code n done)
  | inr (c, x) ↦
      rw (x, reap_at) (p, swap_remove-perm m.procs i p e, x, refl, ground arith, refl, refl)
]

wait_target-WaitsFor : (t : ℕ) (m : Machine) → WaitsFor t m (wait_target t m)
unfolding wait_target
wait_target-WaitsFor t m =
    go (find_index (λ p. p.pid == t && has_exited p) m.procs)
      (find_index-Finds (λ p. p.pid == t && has_exited p) m.procs)
      (find_index (λ p. p.pid == t) m.procs) (find_index-Finds (λ p. p.pid == t) m.procs)
  where
    go :
        (a : Option ℕ)
        → Finds (λ p. p.pid == t && has_exited p) m.procs a
        → (b : Option ℕ) → Finds (λ p. p.pid == t) m.procs b
        → WaitsFor t m (elim a [
          | some i ↦ reap_at m i (get_elem? m.procs i)
          | none ↦ elim b [
            | some i ↦ yielded (mark_waiting t m) t
            | none ↦ failed m (errno no_process)
          ]
        ])
    go (some i) (p, e, test) b h = rw e (reap_at-exited t i m p e (ground arith) (ground arith))
    go none a (some i) (p, e, test) = (refl, refl, a, (p, i, e, ground arith))
    go none a none h = (refl, refl, h)

-- A child of the caller with a given pid.
abbrev pub HasChild : Machine → ℕ → Type 0
HasChild m pid =
    (c : Process) × (i : ℕ) × (get_elem? m.procs i ≡ some c)
    × (c.parent_pid ≡ m.percpu_pid)
    × (c.pid ≡ pid)

abbrev pub WaitsAny : Machine → Wait → Type 0
WaitsAny m (failed n e) =
    (n ≡ m) × (e ≡ errno echild) × All (λ p. (p.parent_pid == m.percpu_pid) ≡ false) m.procs
WaitsAny m (reaped n code cr3) =
    (z : Process) × Permᴰ (z ∷ n.procs) m.procs
    × (z.exit_code ≡ some code)
    × (z.cr3 ≡ cr3)
    × HasChild m z.pid
    × (n.sched ≡ m.sched)
    × (n.next_pid ≡ m.next_pid)
WaitsAny m (yielded n t) =
    (n ≡ mark_waiting t m)
    × All (λ p. (p.parent_pid == m.percpu_pid && has_exited p) ≡ false) m.procs
    × HasChild m t

reap_at-any :
    (i : ℕ) (m : Machine) (p : Process)
    → get_elem? m.procs i ≡ some p
    → (p.parent_pid == m.percpu_pid) ≡ true
    → has_exited p ≡ true
    → WaitsAny m (reap_at m i (some p))
unfolding reap_at
reap_at-any i m p e same done = elim (Option-cases p.exit_code) [
  | inl n ↦ absurd (exited_ne_none p.exit_code n done)
  | inr (c, x) ↦
      rw (x, reap_at)
        (p, swap_remove-perm m.procs i p e, x, refl, (p, i, e, ground arith, refl), refl, refl)
]

-- A turn for the pid of a child, after no child was found that has exited.
WaitsFor-any :
    (m : Machine) (c : Process) (i : ℕ) (w : Wait)
    → get_elem? m.procs i ≡ some c
    → (c.parent_pid == m.percpu_pid) ≡ true
    → All (λ p. (p.parent_pid == m.percpu_pid && has_exited p) ≡ false) m.procs
    → WaitsFor c.pid m w
    → WaitsAny m w
WaitsFor-any m c i (failed n x) e same a (h, _, missing) =
    absurd (refl_ne (==_refl c.pid) (All-get (λ p. (p.pid == c.pid) ≡ false) m.procs i missing e))
  where
    refl_ne : {b : Bool} → b ≡ true → b ≡ false → ⊥
    refl_ne t f = cc
WaitsFor-any m c i (reaped n code cr3) e same a (z, p, x, y, pid, s, k) =
    (z, p, x, y, (c, i, e, ground arith, sym pid), s, k)
WaitsFor-any m c i (yielded n t) e same a (h, marked, b, q) =
    (rw h marked, a, (c, i, e, ground arith, sym h))

wait_any-WaitsAny : (m : Machine) → WaitsAny m (wait_any m)
unfolding wait_any
wait_any-WaitsAny m =
    go (find_index (λ p. p.parent_pid == m.percpu_pid && has_exited p) m.procs)
      (find_index-Finds (λ p. p.parent_pid == m.percpu_pid && has_exited p) m.procs)
      (find_index (λ p. p.parent_pid == m.percpu_pid) m.procs)
      (find_index-Finds (λ p. p.parent_pid == m.percpu_pid) m.procs)
  where
    go :
        (a : Option ℕ)
        → Finds (λ p. p.parent_pid == m.percpu_pid && has_exited p) m.procs a
        → (b : Option ℕ) → Finds (λ p. p.parent_pid == m.percpu_pid) m.procs b
        → WaitsAny m (elim a [
          | some i ↦ reap_at m i (get_elem? m.procs i)
          | none ↦ elim b [
            | none ↦ failed m (errno echild)
            | some i ↦ elim (get_elem? m.procs i) [
              | none ↦ failed m (errno echild)
              | some child ↦ wait_target child.pid m
            ]
          ]
        ])
    go (some i) (p, e, test) b h = rw e (reap_at-any i m p e (ground arith) (ground arith))
    go none a none h = (refl, refl, h)
    go none a (some i) (p, e, test) =
        rw e (WaitsFor-any m p i (wait_target p.pid m) e test a (wait_target-WaitsFor p.pid m))

-- A turn of `waitpid`. Asked for any child, it reaps one process that has exited and has a child's
-- pid, fails with `ECHILD` and no change where the caller has no child, or yields, now waiting for
-- one of its children, where none has exited. Asked for a pid, it reaps one process of that pid that
-- has exited, fails with `ESRCH` and no change where no process has the pid, or yields where one
-- has and none has exited. The value is the reaped one's exit code; the others stay in the list, and
-- the scheduler does not change.
pub wait_turn-Waits :
    (target : ℕ) (m : Machine)
    → ((target ≡ any_child) × WaitsAny m (wait_turn target m))
      ⊎ ((target ≢ any_child) × WaitsFor target m (wait_turn target m))
unfolding wait_turn
wait_turn-Waits target m = elim (Bool-cases (target == any_child)) [
  | inl e ↦ inl ((==_iff target any_child).0 e, rw (e, wait_turn) (wait_any-WaitsAny m))
  | inr e ↦ inr (ground arith, rw (e, wait_turn) (wait_target-WaitsFor target m))
]
