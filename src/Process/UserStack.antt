-- ===== src/Process/UserStack.antt =====
-- `prepare_run` of zenos-kernel/src/process/mod.rs: the user stack of a process that was loaded, with
-- its arguments and environment. Left out are the switch of CR3 and of the per-CPU pid
-- before it, and the mapping of the stack's pages.
pub mod Layout
pub mod Steps
pub mod Room
use zenos.Common.{
  ℕ, zero, suc, ◌+◌, ◌-◌, ◌*◌, ◌/◌, ◌%◌, Bool, true, false, not, List, [], ◌∷◌, ◌++◌, reverse,
  Option, none, some, if◌then◌else◌, ◌==◌, ltb, length, u64_size,
}
use zenos.Process.State.{ProcessState, Process, running}

-- Subtraction on `u64`, with its wrap-around.
unfoldable pub wrapping_sub : ℕ → ℕ → ℕ
wrapping_sub a b = (a + (u64_size - b % u64_size)) % u64_size

-- What is stored at an address: a text with a zero byte behind it, or eight bytes.
pub data Word : Type 0 where
  text : List ℕ → Word
  quad : ℕ → Word

-- The stack pointer, and what was stored, last first.
pub record Stack : Type 0 where
  pub sp : ℕ
  pub stored : List (ℕ × Word)

store : ℕ → Word → Stack → Stack
store size word s =
    let sp = wrapping_sub s.sp size in record { sp = sp; stored = (sp, word) ∷ s.stored }

-- The loops that copy strings, on the strings in the order of the copying; with their pointers.
pub copy_strings : List (List ℕ) → Stack → List ℕ × Stack
unfolding store
copy_strings [] s = ([], s)
copy_strings (t ∷ ts) s =
    let s' = store (length t + 1) (text t) s in
    let (ptrs, r) = copy_strings ts s' in (s'.sp ∷ ptrs, r)

-- `while sp % 16 != 0`; 15 turns are enough.
pub align_loop : ℕ → ℕ → ℕ
align_loop zero sp = sp
align_loop (suc n) sp = let rest = align_loop n (sp - 1) in if sp % 16 == 0 then sp else rest

push : ℕ → Stack → Stack
unfolding store
push value s = store 8 (quad value) s

pub push_all : List ℕ → Stack → Stack
unfolding push
push_all [] s = s
push_all (v ∷ vs) s = push_all vs (push v s)

-- The adjustment before the pushes, for the given number of arguments and variables.
pub adjust : ℕ → ℕ → Stack → Stack
unfolding align_loop wrapping_sub
adjust argc envc s =
    let sp = align_loop 15 s.sp in
    let temp_sp = wrapping_sub sp ((1 + argc + envc + 2) * 8) in
    record s { sp = if temp_sp % 16 == 0 then sp else wrapping_sub sp 8 }

-- The pushes in their order: the auxiliary vector, the variables, the arguments and their number.
pub values : ℕ → List ℕ → List ℕ → List ℕ
values argc argv_ptrs envp_ptrs = 0 ∷ 0 ∷ 0 ∷ (envp_ptrs ++ (0 ∷ (argv_ptrs ++ (argc ∷ []))))

pub fill : List (List ℕ) → List (List ℕ) → ℕ → Stack
unfolding copy_strings adjust push_all values
fill argv envp top =
    let (envp_ptrs, s) = copy_strings (reverse envp) (record { sp = top; stored = [] }) in
    let (argv_ptrs, s') = copy_strings (reverse argv) s in
    push_all (values (length argv) argv_ptrs envp_ptrs) (adjust (length argv) (length envp) s')

abbrev pub stack_gap : ℕ
stack_gap = 0x20000

abbrev pub stack_size : ℕ
stack_size = 0x4000

-- The next page border after the gap behind the loaded program.
pub stack_top : Process → ℕ
stack_top p = ((p.load_bias + p.end + stack_gap + 0xfff) % u64_size) / 0x1000 * 0x1000

-- `None`, a failed assertion, or the process as it runs with what was stored.
pub data Prepared : Type 0 where
  not_loaded : Prepared
  panicked : Prepared
  prepared : Process → List (ℕ × Word) → Prepared

-- The assertions on the finished stack, and the registers.
pub start : Process → ℕ → Stack → Prepared
unfolding wrapping_sub
start p top s =
    if ltb s.sp (wrapping_sub top stack_size)
    then panicked
    else if not (s.sp % 16 == 0)
    then panicked
    else let state = p.state in
      prepared
        (record p {
          state = record state { rsp = s.sp; rip = (p.entry_point + p.load_bias) % u64_size };
          user_stack_top = top;
          status = running;
        })
        s.stored

-- The new stack, after the assertion that it does not begin below address 0.
pub with_stack : Process → ℕ → Prepared
unfolding fill start wrapping_sub
with_stack p top =
    if ltb (wrapping_sub top stack_size) top then start p top (fill p.argv p.envp top) else panicked

pub prepare_run : Process → Prepared
unfolding with_stack stack_top
prepare_run p =
    if not p.loaded
    then not_loaded
    else if p.user_stack_top == 0
    then with_stack p (stack_top p)
    else prepared (record p { status = running }) []
