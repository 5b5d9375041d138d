-- ===== src/Process/UserStack/Steps.antt =====
-- What the steps of `prepare_run` (zenos-kernel/src/process/mod.rs) do to the stack pointer: where it
-- is a multiple of 16, and that it is a `u64`.
use zenos.Common.{
  ℕ, zero, suc, ◌+◌, ◌-◌, ◌*◌, ◌%◌, ◌<◌, ◌≤◌, ◌≡◌, ◌≢◌, refl, ap, ◌∙◌, arith, List, [], ◌∷◌, ◌++◌,
  reverse, ◌==◌, length, length-append, u64_size, if_cases, Bool-cases, inl, inr,
}
use mathlib.Core.List.{reverse-cons}
use zenos.Process.UserStack.{
  wrapping_sub, text, Stack, store, copy_strings, align_loop, push, push_all, adjust, values,
}

align_loop-aligned : (n sp : ℕ) → sp % 16 ≤ n → align_loop n sp % 16 ≡ 0
unfolding align_loop
align_loop-aligned zero sp h = omega arith
align_loop-aligned (suc n) sp h = elim (Bool-cases (sp % 16 == 0)) [
  | inl e ↦ rw e (ground arith)
  | inr e ↦
      rw e
        (let ne : sp % 16 ≢ 0 = ground arith in align_loop-aligned n (sp - 1) (omega (arith, ne)))
]

pub push_all-sp : (vs : List ℕ) (s : Stack) → (push_all vs s).sp % 16 ≡ (s.sp + 8 * length vs) % 16
unfolding push_all push store wrapping_sub
push_all-sp [] s = omega arith
push_all-sp (v ∷ vs) s = push_all-sp vs (push v s) ∙ omega arith

pub length-copy_strings :
    (ts : List (List ℕ)) (s : Stack) → length (copy_strings ts s).0 ≡ length ts
unfolding copy_strings
length-copy_strings [] s = refl
length-copy_strings (t ∷ ts) s = ap suc (length-copy_strings ts (store (length t + 1) (text t) s))

pub length-values :
    (argc : ℕ) (as' es : List ℕ) → length (values argc as' es) ≡ length as' + length es + 5
unfolding values
length-values argc as' es =
    omega (arith, length-append es (0 ∷ (as' ++ (argc ∷ []))), length-append as' (argc ∷ []))

wrapping_sub-mod : (sp n : ℕ) → wrapping_sub sp (n * 8) % 16 ≡ (sp + n * 8) % 16
unfolding wrapping_sub
wrapping_sub-mod sp n = omega arith

pub adjust-sp :
    (argc envc : ℕ) (s : Stack) → ((adjust argc envc s).sp + 8 * (argc + envc + 5)) % 16 ≡ 0
unfolding adjust
adjust-sp argc envc s =
    let sp = align_loop 15 s.sp in
    let n = 1 + argc + envc + 2 in
    let a : align_loop 15 s.sp % 16 ≡ 0 = align_loop-aligned 15 s.sp (omega arith) in
    if_cases (λ x. (x + 8 * (argc + envc + 5)) % 16 ≡ 0) (wrapping_sub sp (n * 8) % 16 == 0)
      (λ e.
        let e' : wrapping_sub sp (n * 8) % 16 ≡ 0 = ground arith in
        omega (arith, a, e', wrapping_sub-mod sp n))
      (λ e.
        let e' : wrapping_sub sp (n * 8) % 16 ≢ 0 = ground arith in
        omega (arith, a, e', wrapping_sub-mod sp n, wrapping_sub-mod sp 1))

pub length-reverse : {A : Type 0} (xs : List A) → length (reverse xs) ≡ length xs
length-reverse [] = refl
length-reverse (x ∷ xs) =
    ap length (reverse-cons x xs)
    ∙ omega (arith, length-append (reverse xs) (x ∷ []), length-reverse xs)

pub wrapping_sub-lt : (a b : ℕ) → wrapping_sub a b < u64_size
unfolding wrapping_sub
wrapping_sub-lt a b = omega arith

pub align_loop-le : (n sp : ℕ) → align_loop n sp ≤ sp
unfolding align_loop
align_loop-le zero sp = omega arith
align_loop-le (suc n) sp =
    if_cases (λ x. x ≤ sp) (sp % 16 == 0) (λ _. omega arith)
      (λ _. omega (arith, align_loop-le n (sp - 1)))

pub copy_strings-sp :
    (ts : List (List ℕ)) (s : Stack) → s.sp < u64_size → (copy_strings ts s).1.sp < u64_size
unfolding copy_strings store
copy_strings-sp [] s h = h
copy_strings-sp (t ∷ ts) s h =
    copy_strings-sp ts (store (length t + 1) (text t) s) (wrapping_sub-lt s.sp (length t + 1))

pub adjust-lt : (argc envc : ℕ) (s : Stack) → s.sp < u64_size → (adjust argc envc s).sp < u64_size
unfolding adjust
adjust-lt argc envc s h =
    if_cases (λ x. x < u64_size)
      (wrapping_sub (align_loop 15 s.sp) ((1 + argc + envc + 2) * 8) % 16 == 0)
      (λ _. omega (arith, align_loop-le 15 s.sp)) (λ _. wrapping_sub-lt (align_loop 15 s.sp) 8)
