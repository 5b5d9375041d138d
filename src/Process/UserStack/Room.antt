-- ===== src/Process/UserStack/Room.antt =====
-- The stack that `prepare_run` (zenos-kernel/src/process/mod.rs) fills grows downwards from its top.
use zenos.Common.{
  ℕ, zero, suc, ◌+◌, ◌-◌, ◌*◌, ◌%◌, ◌<◌, ◌≤◌, ◌≡◌, refl, ap, ◌∙◌, arith, List, [], ◌∷◌, ◌++◌,
  reverse, ◌==◌, length, u64_size, if_cases,
}
use mathlib.Core.List.{reverse-cons}
use zenos.Process.UserStack.{
  wrapping_sub, text, Stack, store, copy_strings, align_loop, push, push_all, adjust, values, fill,
}
use zenos.Process.UserStack.Steps.{
  length-copy_strings, length-values, length-reverse, wrapping_sub-lt, align_loop-le,
  copy_strings-sp, adjust-lt,
}

-- The bytes of texts with their zero bytes.
abbrev pub text_size : List (List ℕ) → ℕ
text_size [] = 0
text_size (t ∷ ts) = length t + 1 + text_size ts

-- The bytes that the words at the bottom take, and all that the stack takes at most.
abbrev pub words_size : List (List ℕ) → List (List ℕ) → ℕ
words_size argv envp = 8 * (length argv + length envp + 5)

abbrev pub needed : List (List ℕ) → List (List ℕ) → ℕ
needed argv envp = text_size argv + text_size envp + 23 + words_size argv envp

text_size-append : (xs ys : List (List ℕ)) → text_size (xs ++ ys) ≡ text_size xs + text_size ys
text_size-append [] ys = omega arith
text_size-append (x ∷ xs) ys = omega (arith, text_size-append xs ys)

text_size-reverse : (xs : List (List ℕ)) → text_size (reverse xs) ≡ text_size xs
text_size-reverse [] = refl
text_size-reverse (x ∷ xs) =
    ap text_size (reverse-cons x xs)
    ∙ omega (arith, text_size-append (reverse xs) (x ∷ []), text_size-reverse xs)

pub wrapping_sub-down : (a b : ℕ) → a < u64_size → b ≤ a → wrapping_sub a b + b ≡ a
unfolding wrapping_sub
wrapping_sub-down a b h k = omega arith

copy_strings-down :
    (ts : List (List ℕ)) (s : Stack)
    → s.sp < u64_size
    → text_size ts ≤ s.sp
    → (copy_strings ts s).1.sp + text_size ts ≡ s.sp
unfolding copy_strings store
copy_strings-down [] s h k = omega arith
copy_strings-down (t ∷ ts) s h k =
    let d = wrapping_sub-down s.sp (length t + 1) h (omega arith) in
    let r =
      copy_strings-down ts (store (length t + 1) (text t) s) (wrapping_sub-lt s.sp (length t + 1))
        (omega (arith, d)) in
    omega (arith, d, r)

align_loop-near : (n sp : ℕ) → sp ≤ align_loop n sp + n
unfolding align_loop
align_loop-near zero sp = omega arith
align_loop-near (suc n) sp =
    if_cases (λ x. sp ≤ x + suc n) (sp % 16 == 0) (λ _. omega arith)
      (λ _. omega (arith, align_loop-near n (sp - 1)))

adjust-down :
    (argc envc : ℕ) (s : Stack)
    → s.sp < u64_size
    → 23 ≤ s.sp
    → ((adjust argc envc s).sp ≤ s.sp) × (s.sp ≤ (adjust argc envc s).sp + 23)
unfolding adjust
adjust-down argc envc s h k =
    let sp = align_loop 15 s.sp in
    let low = align_loop-le 15 s.sp in
    let near = align_loop-near 15 s.sp in
    let d = wrapping_sub-down sp 8 (omega (arith, low)) (omega (arith, near)) in
    if_cases (λ x. (x ≤ s.sp) × (s.sp ≤ x + 23))
      (wrapping_sub sp ((1 + argc + envc + 2) * 8) % 16 == 0) (λ _. (low, omega (arith, near)))
      (λ _. (omega (arith, low, d), omega (arith, near, d)))

push_all-down :
    (vs : List ℕ) (s : Stack)
    → s.sp < u64_size
    → 8 * length vs ≤ s.sp
    → (push_all vs s).sp + 8 * length vs ≡ s.sp
unfolding push_all push store
push_all-down [] s h k = omega arith
push_all-down (v ∷ vs) s h k =
    let d = wrapping_sub-down s.sp 8 h (omega arith) in
    let r = push_all-down vs (push v s) (wrapping_sub-lt s.sp 8) (omega (arith, d)) in
    omega (arith, d, r)

-- Where the top is high enough for all that is stored, the stack grows downwards from it.
pub fill-down :
    (argv envp : List (List ℕ)) (top : ℕ)
    → top < u64_size
    → needed argv envp ≤ top
    → (fill argv envp top).sp + words_size argv envp ≤ top
unfolding fill
fill-down argv envp top lt room =
    let s : Stack = record { sp = top; stored = [] } in
    let r = copy_strings (reverse envp) s in
    let q = copy_strings (reverse argv) r.1 in
    let es = text_size-reverse envp in
    let as' = text_size-reverse argv in
    let d = copy_strings-down (reverse envp) s lt (omega (arith, es)) in
    let lt' = copy_strings-sp (reverse envp) s lt in
    let d' = copy_strings-down (reverse argv) r.1 lt' (omega (arith, es, as', d)) in
    let lt'' = copy_strings-sp (reverse argv) r.1 lt' in
    let a = adjust-down (length argv) (length envp) q.1 lt'' (omega (arith, es, as', d, d')) in
    let n = length-values (length argv) q.0 r.0 in
    let cs = length-copy_strings (reverse envp) s in
    let cs' = length-copy_strings (reverse argv) r.1 in
    let ls = length-reverse envp in
    let ls' = length-reverse argv in
    let w =
      push_all-down (values (length argv) q.0 r.0) (adjust (length argv) (length envp) q.1)
        (adjust-lt (length argv) (length envp) q.1 lt'')
        (omega (arith, es, as', d, d', a, n, cs, cs', ls, ls')) in
    omega (arith, es, as', d, d', a, n, cs, cs', ls, ls', w)
