-- ===== src/Process/Calls/Reaping.antt =====
-- `swap_remove` as `waitpid` (zenos-kernel/src/syscall/wait.rs) uses it on the list of processes.
use mathlib.Core.List.{Permᴰ}
use mathlib.Core.List.Permᴰ
use zenos.Common.{
  ℕ, zero, suc, ◌≤◌, ◌<◌, ◌≡◌, refl, ap, ◌∙◌, List, [], ◌∷◌, none, some, arith, length, get_elem?,
  get_elem?-lt,
}
use zenos.Process.State.{Process}
use zenos.Process.Scheduler.{Machine}
use zenos.Process.Calls.{current_proc_mut, rotate_last, last_first, swap_remove, reaped, reap_at}

rotate_last-perm :
    (p : Process) (ps : List Process) → Permᴰ ((rotate_last p ps).0 ∷ (rotate_last p ps).1) (p ∷ ps)
unfolding rotate_last
rotate_last-perm p [] = Permᴰ.refl (p ∷ [])
rotate_last-perm p (q ∷ qs) =
    Permᴰ.trans (Permᴰ.swap refl refl) (Permᴰ.cons refl (rotate_last-perm q qs))

last_first-perm : (ps : List Process) → Permᴰ (last_first ps) ps
unfolding last_first
last_first-perm [] = Permᴰ.refl []
last_first-perm (p ∷ ps) = rotate_last-perm p ps

-- `swap_remove` takes out the one element and keeps the others.
pub swap_remove-perm :
    (ps : List Process) (i : ℕ) (p : Process)
    → get_elem? ps i ≡ some p
    → Permᴰ (p ∷ swap_remove ps i) ps
unfolding swap_remove
swap_remove-perm [] i p e = cc
swap_remove-perm (q ∷ ps) zero p e =
    let same : p ≡ q = cc in rw same (Permᴰ.cons refl (last_first-perm ps))
swap_remove-perm (q ∷ ps) (suc i) p e =
    Permᴰ.trans (Permᴰ.swap refl refl) (Permᴰ.cons refl (swap_remove-perm ps i p e))

length-rotate_last : (p : Process) (ps : List Process) → length (rotate_last p ps).1 ≡ length ps
unfolding rotate_last
length-rotate_last p [] = refl
length-rotate_last p (q ∷ qs) = ap suc (length-rotate_last q qs)

length-last_first : (ps : List Process) → length (last_first ps) ≡ length ps
unfolding last_first
length-last_first [] = refl
length-last_first (p ∷ ps) = ap suc (length-rotate_last p ps)

length-swap_remove :
    (ps : List Process) (i : ℕ) → i < length ps → suc (length (swap_remove ps i)) ≡ length ps
unfolding swap_remove
length-swap_remove [] i h = absurd (omega arith)
length-swap_remove (p ∷ ps) zero h = ap suc (length-last_first ps)
length-swap_remove (p ∷ ps) (suc i) h = ap suc (length-swap_remove ps i (omega arith))

get_elem?-beyond : (ps : List Process) (i : ℕ) → length ps ≤ i → get_elem? ps i ≡ none
get_elem?-beyond [] i h = refl
get_elem?-beyond (p ∷ ps) zero h = absurd (omega arith)
get_elem?-beyond (p ∷ ps) (suc i) h = get_elem?-beyond ps i (omega arith)

current_proc_mut-at :
    (n : Machine) (c : ℕ) → n.current_proc ≡ some c → current_proc_mut n ≡ get_elem? n.procs c
unfolding current_proc_mut
current_proc_mut-at n c e = ground arith

-- Where the caller stands last in the list, reaping leaves its per-CPU pointer past the end of the
-- list, whatever was reaped: `swap_remove` has moved the caller, and the pointer is not renewed.
pub reap_at-loses_caller :
    (m : Machine) (i code c : ℕ) (p : Process)
    → get_elem? m.procs i ≡ some p
    → p.exit_code ≡ some code
    → m.current_proc ≡ some c
    → suc c ≡ length m.procs
    → let left = record m { procs = swap_remove m.procs i } in
      (reap_at m i (some p) ≡ reaped left code p.cr3) × (current_proc_mut left ≡ none)
unfolding reap_at
reap_at-loses_caller m i code c p e x cur last = (
  rw (x, reap_at),
  current_beyond (record m { procs = swap_remove m.procs i }) c cur
      (omega (arith, length-swap_remove m.procs i (get_elem?-lt m.procs i e))),
)
  where
    current_beyond :
        (n : Machine) (c : ℕ)
        → n.current_proc ≡ some c
        → length n.procs ≤ c
        → current_proc_mut n ≡ none
    current_beyond n c cur h = current_proc_mut-at n c cur ∙ get_elem?-beyond n.procs c h
