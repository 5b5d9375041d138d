-- ===== src/Process/Scheduler/Best.antt =====
-- Which process the pass of `schedule` (zenos-kernel/src/process/scheduler/mod.rs) finds.
use zenos.Common.{
  ℕ, suc, ◌≤◌, ◌<◌, ◌≡◌, refl, sym, ap, ◌∙◌, Bool, true, false, not, List, [], ◌∷◌, ◌++◌, Option,
  none, some, arith, if◌then◌else◌, length, length-append, get_elem?, get_elem?-append_left,
  get_elem?-lt, get_elem?-append_length, All, All-append, append_assoc, ◌⊎◌, inl, inr,
}
use mathlib.Core.List.{append-nil}
use zenos.Process.State.{
  ProcessStatus, Process, running, ready, created, exited, blocked, waiting_for,
}
use zenos.Process.Scheduler.{
  Scan, position, exit_code_at, scan_status, scan, scan_start, scan_all, max_priority,
}

-- Whether a process may run: it is ready, its flag is down, or its target has exited or is gone.
is_some : Option ℕ → Bool
is_some none = false
is_some (some i) = true

waits_no_more : Option ℕ → Option ℕ → Bool
unfolding is_some
waits_no_more target code = if is_some target then is_some code else true

unfoldable pub runnable : (ℕ → Bool) → List Process → ProcessStatus → Bool
unfolding waits_no_more position exit_code_at
runnable flag all ready = true
runnable flag all (blocked f) = not (flag f)
runnable flag all (waiting_for pid) =
    waits_no_more (position pid all) (exit_code_at all (position pid all))
runnable flag all _ = false

-- A candidate: the place of a runnable process of the best priority so far, below 255.
abbrev pub BestAt : (ℕ → Bool) → List Process → List Process → ℕ → Option ℕ → Type 0
BestAt flag all seen priority none = priority ≡ max_priority
BestAt flag all seen priority (some b) =
    (p : Process) × (get_elem? seen b ≡ some p)
    × (runnable flag all p.status ≡ true)
    × (p.priority ≡ priority)
    × (priority < max_priority)

abbrev pub IsBest : (ℕ → Bool) → List Process → List Process → Scan → Type 0
IsBest flag all seen s =
    BestAt flag all seen s.best_priority s.best_idx
    × All (λ q. runnable flag all q.status ≡ true → s.best_priority ≤ q.priority) seen

module _ (flag : ℕ → Bool) (all : List Process) (i : ℕ) (p : Process) (s : Scan) where
  abbrev Kept : ProcessStatus → Scan → Type 0
  Kept st s' =
      (s'.best_idx ≡ s.best_idx)
      × (s'.best_priority ≡ s.best_priority)
      × (runnable flag all st ≡ true → s.best_priority ≤ p.priority)

  abbrev Taken : ProcessStatus → Scan → Type 0
  Taken st s' =
      (s'.best_idx ≡ some i)
      × (s'.best_priority ≡ p.priority)
      × (runnable flag all st ≡ true)
      × (p.priority < s.best_priority)

  -- A turn of the loop keeps the candidate, or takes the process where it is runnable and better.
  scan_status-cases :
      (st : ProcessStatus)
      → Kept st (scan_status flag all i p st s) ⊎ Taken st (scan_status flag all i p st s)
  unfolding scan_status runnable
  scan_status-cases ready = ground arith
  scan_status-cases (blocked f) = ground arith
  scan_status-cases (waiting_for pid) = ground arith
  scan_status-cases running = ground arith
  scan_status-cases created = ground arith
  scan_status-cases exited = ground arith

module _ (flag : ℕ → Bool) (all : List Process) where
  BestAt-extend :
      (seen : List Process) (p : Process) (priority : ℕ) (best : Option ℕ)
      → BestAt flag all seen priority best
      → BestAt flag all (seen ++ (p ∷ [])) priority best
  BestAt-extend seen p priority none h = h
  BestAt-extend seen p priority (some b) (q, e, r, same, top) =
      (q, get_elem?-append_left seen (p ∷ []) b (get_elem?-lt seen b e) ∙ e, r, same, top)

  bounds-lower :
      (seen : List Process) (m n : ℕ)
      → n ≤ m
      → All (λ q. runnable flag all q.status ≡ true → m ≤ q.priority) seen
      → All (λ q. runnable flag all q.status ≡ true → n ≤ q.priority) seen
  bounds-lower [] m n h a = tt
  bounds-lower (q ∷ seen) m n h a = ((λ r. omega (arith, a.0 r)), bounds-lower seen m n h a.1)

  Kept-IsBest :
      (seen : List Process) (p : Process) (s s' : Scan) (i : ℕ)
      → IsBest flag all seen s
      → Kept flag all i p s p.status s'
      → IsBest flag all (seen ++ (p ∷ [])) s'
  Kept-IsBest seen p s s' i (b, a) (idx, pri, bound) =
      rw (idx, pri)
        (
          BestAt-extend seen p s.best_priority s.best_idx b,
          All-append _ seen (p ∷ []) a (bound, tt),
        )

  Taken-IsBest :
      (seen : List Process) (p : Process) (s s' : Scan) (i : ℕ)
      → i ≡ length seen
      → IsBest flag all seen s
      → s.best_priority ≤ max_priority
      → Taken flag all i p s p.status s'
      → IsBest flag all (seen ++ (p ∷ [])) s'
  Taken-IsBest seen p s s' i e (b, a) top (idx, pri, run, better) =
      rw (idx ∙ ap some e, pri)
        (
          (p, get_elem?-append_length seen p, run, refl, omega arith),
          All-append _ seen (p ∷ []) (bounds-lower seen s.best_priority p.priority (omega arith) a)
              ((λ _. omega arith), tt),
        )

  BestAt-top :
      (seen : List Process) (priority : ℕ) (best : Option ℕ)
      → BestAt flag all seen priority best
      → priority ≤ max_priority
  BestAt-top seen priority none h = omega arith
  BestAt-top seen priority (some b) h = omega arith

  scan-IsBest :
      (seen ps : List Process) (s : Scan) (i : ℕ)
      → i ≡ length seen
      → IsBest flag all seen s
      → IsBest flag all (seen ++ ps) (scan flag all i ps s)
  unfolding scan
  scan-IsBest seen [] s i e h = rw (append-nil seen) h
  scan-IsBest seen (p ∷ ps) s i e h = rw (sym (append_assoc seen (p ∷ []) ps)) (
      scan-IsBest (seen ++ (p ∷ [])) ps (scan_status flag all i p p.status s) (suc i)
        (omega (arith, length-append seen (p ∷ [])))
        (elim (scan_status-cases flag all i p s p.status) [
          | inl k ↦ Kept-IsBest seen p s (scan_status flag all i p p.status s) i h k
          | inr t ↦
              Taken-IsBest seen p s (scan_status flag all i p p.status s) i e h
                (BestAt-top seen s.best_priority s.best_idx h.0) t
        ]))

-- The pass finds a runnable process (ready, its flag down, or its target exited or gone) that no
-- runnable process outranks, and whose priority is below 255; where it finds none, every runnable
-- process has priority 255 or more. So a process of priority 255 is never found.
pub scan_all-IsBest : (flag : ℕ → Bool) (ps : List Process) → IsBest flag ps ps (scan_all flag ps)
unfolding scan_all
scan_all-IsBest flag ps = scan-IsBest flag ps [] ps scan_start 0 refl (refl, tt)
