-- ===== src/Process/Calls/Exiting.antt =====
-- What `exit` (zenos-kernel/src/syscall/exit.rs) leaves behind.
use zenos.Common.{
  ℕ, zero, suc, ◌-◌, ◌*◌, ◌/◌, ◌%◌, ◌^◌, ◌<◌, ◌≡◌, u64_size, ◌≢◌, refl, ap, ◌∙◌, Bool, true, List,
  [], ◌∷◌, none, some, arith, if◌then◌else◌, ◌==◌, ==_iff, subst, if_of_true, if_of_false,
  get_elem?, get_elem?-lt, get_elem?-set_self, get_elem?-set_ne, All, All-get, Bool-cases, inl, inr,
  ◌⊎◌,
}
use zenos.Process.State.{Process, exited, waiting_for}
use zenos.Process.Scheduler.{Machine, position, exit_code_at}
use zenos.Process.Scheduler.Best.{runnable}
use zenos.Process.Scheduler.Exclusive.{Distinct}
use zenos.Process.Calls.{store_current, exit_value, adopt, reparent, exit_current}

adopt-parent : (pid : ℕ) (p : Process) → pid ≢ 1 → (adopt pid p).parent_pid ≢ pid
unfolding adopt
adopt-parent pid p h e = ground arith

reparent-orphans :
    (pid : ℕ) (ps : List Process) → pid ≢ 1 → All (λ q. q.parent_pid ≢ pid) (reparent pid ps)
unfolding reparent
reparent-orphans pid [] h = tt
reparent-orphans pid (p ∷ ps) h = (adopt-parent pid p h, reparent-orphans pid ps h)

get_elem?-reparent :
    (pid : ℕ) (ps : List Process) (i : ℕ) (p : Process)
    → get_elem? ps i ≡ some p
    → get_elem? (reparent pid ps) i ≡ some (adopt pid p)
unfolding reparent
get_elem?-reparent pid [] i p e = cc
get_elem?-reparent pid (q ∷ ps) zero p e = ap some (ap (adopt pid) (let same : q ≡ p = cc in same))
get_elem?-reparent pid (q ∷ ps) (suc i) p e = get_elem?-reparent pid ps i p e

get_elem?-store :
    (m : Machine) (i j : ℕ) (p q : Process)
    → m.current_proc ≡ some i
    → i ≢ j
    → get_elem? m.procs j ≡ some q
    → get_elem? (store_current m p).procs j ≡ some q
unfolding store_current
get_elem?-store m i j p q c ne e = rw c (get_elem?-set_ne m.procs p ne ∙ e)

get_elem?-store_self :
    (m : Machine) (i : ℕ) (p q : Process)
    → m.current_proc ≡ some i
    → get_elem? m.procs i ≡ some q
    → get_elem? (store_current m p).procs i ≡ some p
unfolding store_current
get_elem?-store_self m i p q c e = rw c (get_elem?-set_self m.procs i p (get_elem?-lt m.procs i e))

-- A zombie: the process at a place, with its pid, its exit code and the status for it.
abbrev pub IsZombie : List Process → ℕ → ℕ → ℕ → Type 0
IsZombie ps i pid code =
    (z : Process) × (get_elem? ps i ≡ some z)
    × (z.pid ≡ pid)
    × (z.exit_code ≡ some code)
    × (z.status ≡ exited)

adopt-fields :
    (pid : ℕ) (p : Process)
    → ((adopt pid p).pid ≡ p.pid)
      × ((adopt pid p).exit_code ≡ p.exit_code)
      × ((adopt pid p).status ≡ p.status)
unfolding adopt
adopt-fields pid p = ground arith

-- What a process leaves as its code: the lower 32 bits of `rdi`, with the 32 bits above them all set
-- where bit 31 is set, and clear where it is not.
abbrev pub ExitCode : ℕ → ℕ → Type 0
ExitCode rdi code =
    (code < u64_size)
    × (code % 2 ^ 32 ≡ rdi % 2 ^ 32)
    × (code / 2 ^ 32 ≡ rdi / 2 ^ 31 % 2 * (2 ^ 32 - 1))

exit_value-ExitCode : (rdi : ℕ) → ExitCode rdi (exit_value rdi)
unfolding exit_value
exit_value-ExitCode rdi = (ground arith, ground arith, ground arith)

-- The exit of a process other than init: in its place stays a zombie with its pid and its code, cut
-- to 32 bits and extended with its sign; every other process stays, only that the children of the
-- one that exits become init's; and no process is its child any more. The exit of init panics.
pub exit_current-exits :
    (rdi i : ℕ) (p : Process) (m : Machine)
    → m.current_proc ≡ some i
    → get_elem? m.procs i ≡ some p
    → ((p.pid ≡ 1) × (exit_current rdi p m ≡ none))
      ⊎ ((p.pid ≢ 1)
          × ((n : Machine) × (exit_current rdi p m ≡ some n)
              × ((code : ℕ) × ExitCode rdi code × IsZombie n.procs i p.pid code)
              × All (λ q. q.parent_pid ≢ p.pid) n.procs
              × ((j : ℕ) (q : Process)
                  → i ≢ j
                  → get_elem? m.procs j ≡ some q
                  → get_elem? n.procs j
                    ≡ some (if q.parent_pid == p.pid then record q { parent_pid = 1 } else q))))
unfolding exit_current adopt
exit_current-exits rdi i p m c e =
    let z : Process = record p { exit_code = some (exit_value rdi); status = exited } in
    let marked : Machine = store_current m z in
    elim (Bool-cases (p.pid == 1)) [
      | inl init ↦ inl ((==_iff p.pid 1).0 init, if_of_true none _ init)
      | inr other ↦
          let ne : p.pid ≢ 1 = ground arith in
          inr (
            ne,
            (
              record marked { procs = reparent p.pid marked.procs },
              if_of_false none _ other,
              (
                exit_value rdi,
                exit_value-ExitCode rdi,
                (
                  adopt p.pid z,
                  get_elem?-reparent p.pid marked.procs i z (get_elem?-store_self m i z p c e),
                  (adopt-fields p.pid z).0,
                  (adopt-fields p.pid z).1,
                  (adopt-fields p.pid z).2,
                ),
              ),
              reparent-orphans p.pid marked.procs ne,
              λ j q ne at_j.
                  get_elem?-reparent p.pid marked.procs j q (get_elem?-store m i j z q c ne at_j),
            ),
          )
    ]

position-Distinct :
    (ps : List Process) (i : ℕ) (q : Process)
    → Distinct ps
    → get_elem? ps i ≡ some q
    → position q.pid ps ≡ some i
unfolding position
position-Distinct [] i q d e = cc
position-Distinct (p ∷ ps) zero q d e = let same : p ≡ q = cc in ground (arith, same)
position-Distinct (p ∷ ps) (suc i) q d e =
    ground (arith, position-Distinct ps i q d.1 e, All-get (λ x. x.pid ≢ p.pid) ps i d.0 e)

exit_code_at-some :
    (ps : List Process) (i : ℕ) (z : Process)
    → get_elem? ps i ≡ some z
    → exit_code_at ps (some i) ≡ z.exit_code
unfolding exit_code_at
exit_code_at-some ps i z e = rw (e, exit_code_at) refl

-- Where no two processes share a pid, a process that waits for one that has become a zombie may run.
pub zombie-wakes :
    (flag : ℕ → Bool) (ps : List Process) (i pid code : ℕ)
    → Distinct ps
    → IsZombie ps i pid code
    → runnable flag ps (waiting_for pid) ≡ true
unfolding runnable
zombie-wakes flag ps i pid code d (z, e, same, x, st) =
    subst (λ t. runnable flag ps (waiting_for t) ≡ true) same
      (rw (position-Distinct ps i z d e) (rw (exit_code_at-some ps i z e) (rw x refl)))
