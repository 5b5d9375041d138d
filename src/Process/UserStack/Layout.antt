-- ===== src/Process/UserStack/Layout.antt =====
-- How `prepare_run` (zenos-kernel/src/process/mod.rs) lays out the user stack.
use zenos.Common.{
  ℕ, ◌+◌, ◌-◌, ◌%◌, ◌<◌, ◌≤◌, ◌≡◌, refl, sym, ap, ◌∙◌, arith, false, List, [], ◌∷◌, ◌++◌, reverse,
  length, u64_size, append_assoc, subst, ◌⊎◌,
}
use mathlib.Core.List.{reverse-cons}
use zenos.Process.State.{Process, running}
use zenos.Process.UserStack.{
  wrapping_sub, Word, quad, Stack, store, copy_strings, push, push_all, adjust, values, fill,
  Prepared, not_loaded, panicked, prepared, stack_top, stack_size,
}
use zenos.Process.UserStack.Steps.{
  push_all-sp, length-copy_strings, length-values, adjust-sp, length-reverse, copy_strings-sp,
  adjust-lt,
}
use zenos.Process.UserStack.Room.{words_size, needed}

-- The words from an address upwards, in the list of what was stored last.
abbrev pub Words : ℕ → List ℕ → List (ℕ × Word) → Type 0
Words sp [] stored = Unit
Words sp (v ∷ vs) [] = ⊥
Words sp (v ∷ vs) ((a, w) ∷ stored) =
    (a ≡ sp) × (w ≡ quad v) × Words ((sp + 8) % u64_size) vs stored

reverse-onto : (v : ℕ) (vs seen : List ℕ) → reverse (v ∷ vs) ++ seen ≡ reverse vs ++ (v ∷ seen)
reverse-onto v vs seen =
    ap (λ l. l ++ seen) (reverse-cons v vs) ∙ append_assoc (reverse vs) (v ∷ []) seen

reverse-past :
    (xs ys seen : List ℕ) → reverse (xs ++ ys) ++ seen ≡ reverse ys ++ (reverse xs ++ seen)
reverse-past [] ys seen = refl
reverse-past (x ∷ xs) ys seen =
    reverse-onto x (xs ++ ys) seen
    ∙ reverse-past xs ys (x ∷ seen)
    ∙ ap (λ l. reverse ys ++ l) (sym (reverse-onto x xs seen))

fill-aligned : (argv envp : List (List ℕ)) (top : ℕ) → (fill argv envp top).sp % 16 ≡ 0
unfolding fill
fill-aligned argv envp top =
    let r = copy_strings (reverse envp) (record { sp = top; stored = [] }) in
    let q = copy_strings (reverse argv) r.1 in
    push_all-sp (values (length argv) q.0 r.0) (adjust (length argv) (length envp) q.1)
    ∙ omega (
      arith,
      length-values (length argv) q.0 r.0,
      length-copy_strings (reverse envp) (record { sp = top; stored = [] }),
      length-copy_strings (reverse argv) r.1,
      length-reverse envp,
      length-reverse argv,
      adjust-sp (length argv) (length envp) q.1,
    )

push-Words :
    (v : ℕ) (vs : List ℕ) (s : Stack)
    → s.sp < u64_size
    → Words s.sp vs s.stored
    → Words (push v s).sp (v ∷ vs) (push v s).stored × ((push v s).sp < u64_size)
unfolding push store wrapping_sub
push-Words v vs s lt h =
    let back : ((s.sp + (u64_size - 8 % u64_size)) % u64_size + 8) % u64_size ≡ s.sp =
      omega arith in
    ((refl, refl, subst (λ a. Words a vs s.stored) (sym back) h), omega arith)

push_all-Words :
    (vs seen : List ℕ) (s : Stack)
    → s.sp < u64_size
    → Words s.sp seen s.stored
    → Words (push_all vs s).sp (reverse vs ++ seen) (push_all vs s).stored
unfolding push_all
push_all-Words [] seen s lt h = h
push_all-Words (v ∷ vs) seen s lt h =
    subst (λ l. Words (push_all vs (push v s)).sp l (push_all vs (push v s)).stored)
      (sym (reverse-onto v vs seen))
      (push_all-Words vs (v ∷ seen) (push v s) (push-Words v seen s lt h).1
        (push-Words v seen s lt h).0)

-- The pointers that the copying loops leave, for the variables and then the arguments.
pub envp_pointers : List (List ℕ) → ℕ → List ℕ × Stack
unfolding copy_strings
envp_pointers envp top = copy_strings (reverse envp) (record { sp = top; stored = [] })

pub argv_pointers : List (List ℕ) → List (List ℕ) → ℕ → List ℕ
unfolding copy_strings envp_pointers
argv_pointers argv envp top = (copy_strings (reverse argv) (envp_pointers envp top).1).0

-- The words of the finished stack, from the stack pointer upwards.
abbrev pub image : ℕ → List ℕ → List ℕ → List ℕ
image argc as' es = argc ∷ (reverse as' ++ (0 ∷ (reverse es ++ (0 ∷ 0 ∷ 0 ∷ []))))

reverse-values :
    (argc : ℕ) (as' es : List ℕ) → reverse (values argc as' es) ++ [] ≡ image argc as' es
unfolding values
reverse-values argc as' es =
    reverse-onto 0 (0 ∷ 0 ∷ (es ++ (0 ∷ (as' ++ (argc ∷ []))))) []
    ∙ reverse-onto 0 (0 ∷ (es ++ (0 ∷ (as' ++ (argc ∷ []))))) (0 ∷ [])
    ∙ reverse-onto 0 (es ++ (0 ∷ (as' ++ (argc ∷ [])))) (0 ∷ 0 ∷ [])
    ∙ reverse-past es (0 ∷ (as' ++ (argc ∷ []))) (0 ∷ 0 ∷ 0 ∷ [])
    ∙ reverse-onto 0 (as' ++ (argc ∷ [])) (reverse es ++ (0 ∷ 0 ∷ 0 ∷ []))
    ∙ reverse-past as' (argc ∷ []) (0 ∷ (reverse es ++ (0 ∷ 0 ∷ 0 ∷ [])))

-- For every list of arguments and variables, whatever their lengths: the stack pointer ends on a
-- multiple of 16, and from it upwards stand the number of arguments, the pointers of the copied
-- arguments, the last copied first, a zero, those of the variables likewise, and three zeroes.
pub fill-Words :
    (argv envp : List (List ℕ)) (top : ℕ)
    → top < u64_size
    → let s = fill argv envp top in
      (s.sp % 16 ≡ 0)
      × Words s.sp
          (image (length argv) (argv_pointers argv envp top) (envp_pointers envp top).0)
          s.stored
unfolding fill envp_pointers argv_pointers
fill-Words argv envp top lt =
    let r = copy_strings (reverse envp) (record { sp = top; stored = [] }) in
    let q = copy_strings (reverse argv) r.1 in
    let a = adjust (length argv) (length envp) q.1 in
    (
      fill-aligned argv envp top,
      subst (λ l. Words (fill argv envp top).sp l (fill argv envp top).stored)
          (reverse-values (length argv) q.0 r.0)
          (push_all-Words (values (length argv) q.0 r.0) [] a
            (adjust-lt (length argv) (length envp) q.1 (
              copy_strings-sp (reverse argv) r.1
                (copy_strings-sp (reverse envp) (record { sp = top; stored = [] }) lt)))
            tt),
    )

-- What `prepare_run` may do with a process that has no stack yet: fail where it is not loaded, stop
-- at an assertion, since the stack would begin below address 0 or is too small, or run it on a stack
-- pointer that is a multiple of 16, with the words from there on inside the stack, unless the texts and
-- pointers take more bytes than there are addresses below the stack's top.
abbrev pub Runs : Process → Prepared → Type 0
Runs p not_loaded = p.loaded ≡ false
Runs p panicked =
    (stack_top p < stack_size) ⊎ ((fill p.argv p.envp (stack_top p)).sp + stack_size < stack_top p)
Runs p (prepared q stored) =
    (q.status ≡ running)
    × (q.user_stack_top ≡ stack_top p)
    × (q.state.rsp % 16 ≡ 0)
    × (stack_top p ≤ q.state.rsp + stack_size)
    × ((q.state.rsp + words_size p.argv p.envp ≤ stack_top p)
        ⊎ (stack_top p < needed p.argv p.envp))
    × (q.state.rip ≡ (p.entry_point + p.load_bias) % u64_size)
    × (stored ≡ (fill p.argv p.envp (stack_top p)).stored)
