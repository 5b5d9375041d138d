-- ===== src/Vfs/Path/Normal.antt =====
-- What `normalize_path` (zenos-kernel/src/disk/vfs.rs) makes of a path.
use mathlib.Core.List.{reverse-reverse, append-nil, reverse-cons}
use zenos.Common.{
  ℕ, ◌≡◌, refl, sym, ap, ◌∙◌, false, List, [], ◌∷◌, ◌++◌, reverse, arith, ◌==◌, ◌≢◌, Bool-cases,
  inl, inr, is_empty, ◌||◌, All, All-append, append_assoc,
}
use zenos.Vfs.Path.{
  slash, dot, push_head, is_dot, is_dotdot, pop, split_step, split, join, normalize_step,
  normalize_loop, components, normalize_path, NoSlash, IsPlain,
}

push_head-NoSlash :
    (c : ℕ) (ps : List (List ℕ))
    → (c == slash) ≡ false
    → All NoSlash ps
    → All NoSlash (push_head c ps)
unfolding push_head
push_head-NoSlash c [] h a = ((h, tt), tt)
push_head-NoSlash c (p ∷ ps) h a = ((h, a.0), a.1)

split_step-NoSlash : (c : ℕ) (ps : List (List ℕ)) → All NoSlash ps → All NoSlash (split_step c ps)
unfolding split_step
split_step-NoSlash c ps a = elim (Bool-cases (c == slash)) [
  | inl e ↦ rw e (tt, a)
  | inr e ↦ rw e (push_head-NoSlash c ps e a)
]

-- No piece that `split` makes holds a slash.
split-NoSlash : (path : List ℕ) → All NoSlash (split path)
unfolding split
split-NoSlash [] = (tt, tt)
split-NoSlash (c ∷ cs) = split_step-NoSlash c (split cs) (split-NoSlash cs)

pop-IsPlain : (acc : List (List ℕ)) → All IsPlain acc → All IsPlain (pop acc)
pop-IsPlain [] a = tt
pop-IsPlain (p ∷ ps) a = a.1

normalize_step-IsPlain :
    (acc : List (List ℕ)) (p : List ℕ)
    → NoSlash p
    → All IsPlain acc
    → All IsPlain (normalize_step acc p)
unfolding normalize_step
normalize_step-IsPlain acc p n a = elim (Bool-cases (is_empty p || is_dot p)) [
  | inl e ↦ rw e a
  | inr e ↦ rw e (elim (Bool-cases (is_dotdot p)) [
    | inl d ↦ rw d (pop-IsPlain acc a)
    | inr d ↦ rw d (
      record { nonempty = ground arith; not_dot = ground arith; not_dotdot = d; no_slash = n },
      a,
    )
  ])
]

normalize_loop-IsPlain :
    (acc ps : List (List ℕ))
    → All NoSlash ps
    → All IsPlain acc
    → All IsPlain (normalize_loop acc ps)
unfolding normalize_loop
normalize_loop-IsPlain acc [] n a = a
normalize_loop-IsPlain acc (p ∷ ps) n a =
    normalize_loop-IsPlain (normalize_step acc p) ps n.1 (normalize_step-IsPlain acc p n.0 a)

-- Every component that a normalized path keeps is plain.
pub components-IsPlain : (path : List ℕ) → All IsPlain (components path)
unfolding components
components-IsPlain path = normalize_loop-IsPlain [] (split path) (split-NoSlash path) tt

-- Splitting past a text without a slash puts it before the first piece.
split-NoSlash_append : (p rest : List ℕ) → NoSlash p → split (p ++ (slash ∷ rest)) ≡ p ∷ split rest
unfolding split
split-NoSlash_append [] rest n = refl
split-NoSlash_append (c ∷ p) rest n = rw (split-NoSlash_append p rest n.1) (rw n.0)

split_one : (p : List ℕ) → NoSlash p → split p ≡ p ∷ []
unfolding split
split_one [] n = refl
split_one (c ∷ p) n = rw (split_one p n.1) (rw n.0)

-- Splitting undoes joining, on pieces without a slash.
split-join :
    (p : List ℕ) (ps : List (List ℕ)) → All NoSlash (p ∷ ps) → split (join (p ∷ ps)) ≡ p ∷ ps
unfolding join
split-join p [] n = split_one p n.0
split-join p (q ∷ ps) n =
    split-NoSlash_append p (join (q ∷ ps)) n.0 ∙ ap (◌∷◌ p) (split-join q ps n.1)

normalize_step-plain :
    (acc : List (List ℕ)) (p : List ℕ) → IsPlain p → normalize_step acc p ≡ p ∷ acc
unfolding normalize_step
normalize_step-plain acc p h = rw (h.nonempty, h.not_dot, h.not_dotdot)

normalize_loop-plain :
    (acc ps : List (List ℕ)) → All IsPlain ps → normalize_loop acc ps ≡ reverse ps ++ acc
unfolding normalize_loop
normalize_loop-plain acc [] h = refl
normalize_loop-plain acc (p ∷ ps) h =
    rw (normalize_step-plain acc p h.0, normalize_loop-plain (p ∷ acc) ps h.1, reverse-cons p ps)
      (sym (append_assoc (reverse ps) (p ∷ []) acc))

plain-NoSlash : (ps : List (List ℕ)) → All IsPlain ps → All NoSlash ps
plain-NoSlash [] h = tt
plain-NoSlash (p ∷ ps) h = (h.0.no_slash, plain-NoSlash ps h.1)

reverse-All : (ps : List (List ℕ)) → All IsPlain ps → All IsPlain (reverse ps)
reverse-All [] h = tt
reverse-All (p ∷ ps) h =
    rw (reverse-cons p ps) (All-append IsPlain (reverse ps) (p ∷ []) (reverse-All ps h.1) (h.0, tt))

-- A path that is written from plain components has just these.
components-join : (ps : List (List ℕ)) → All IsPlain ps → components (slash ∷ join ps) ≡ reverse ps
unfolding components split join normalize_loop normalize_step
components-join [] h = refl
components-join (p ∷ ps) h =
    rw (split-join p ps (plain-NoSlash (p ∷ ps) h))
      (normalize_loop-plain [] (p ∷ ps) h ∙ append-nil (reverse (p ∷ ps)))

-- The components of a normalized path are those of the path.
pub components-normalize_path : (path : List ℕ) → components (normalize_path path) ≡ components path
unfolding normalize_path
components-normalize_path path =
    components-join (reverse (components path)) (reverse-All _ (components-IsPlain path))
    ∙ reverse-reverse (components path)

-- Normalizing a normalized path changes nothing.
pub normalize_path_idempotent :
    (path : List ℕ) → normalize_path (normalize_path path) ≡ normalize_path path
unfolding normalize_path
normalize_path_idempotent path =
    ap (λ cs. slash ∷ join (reverse cs)) (components-normalize_path path)

normalize_loop-append :
    (acc ps qs : List (List ℕ))
    → normalize_loop acc (ps ++ qs) ≡ normalize_loop (normalize_loop acc ps) qs
unfolding normalize_loop
normalize_loop-append acc [] qs = refl
normalize_loop-append acc (p ∷ ps) qs = normalize_loop-append (normalize_step acc p) ps qs

push_head-append :
    (c : ℕ) (ps qs : List (List ℕ)) → ps ≢ [] → push_head c (ps ++ qs) ≡ push_head c ps ++ qs
unfolding push_head
push_head-append c [] qs h = absurd (h refl)
push_head-append c (p ∷ ps) qs h = refl

split-ne-nil : (path : List ℕ) → split path ≢ []
unfolding split push_head
split-ne-nil [] e = cc
split-ne-nil (c ∷ cs) e = ground (arith, split-ne-nil cs)

split-append : (p q : List ℕ) → split (p ++ (slash ∷ q)) ≡ split p ++ split q
unfolding split
split-append [] q = refl
split-append (c ∷ p) q = rw (split-append p q) (elim (Bool-cases (c == slash)) [
  | inl e ↦ rw e refl
  | inr e ↦ rw e (push_head-append c (split p) (split q) (split-ne-nil p))
])

-- The components of `p/q` come from those of `p` by the pieces of `q` alone.
components-append :
    (p q : List ℕ) → components (p ++ (slash ∷ q)) ≡ normalize_loop (components p) (split q)
unfolding components
components-append p q = rw (split-append p q) (normalize_loop-append [] (split p) (split q))

-- What pieces behind a text do to its components.
components_up :
    (cs : List (List ℕ)) (name : List ℕ) (rest : List (List ℕ))
    → IsPlain name
    → normalize_loop cs (name ∷ (dot ∷ dot ∷ []) ∷ rest) ≡ normalize_loop cs rest
unfolding normalize_loop normalize_step
components_up cs name rest h = rw (h.nonempty, h.not_dot, h.not_dotdot) refl

-- Two texts with the same components have the same normal form.
same_normal : (a b : List ℕ) → components a ≡ components b → normalize_path a ≡ normalize_path b
unfolding normalize_path
same_normal a b e = ap (λ (cs : List (List ℕ)). slash ∷ join (reverse cs)) e

-- A part of a path whose pieces leave the components as they are.
module _ (step : List ℕ)
    (no_effect : (cs rest : List (List ℕ))
      → normalize_loop cs (split step ++ rest) ≡ normalize_loop cs rest) where
  drops_middle :
      (p q : List ℕ)
      → normalize_path (p ++ (slash ∷ (step ++ (slash ∷ q)))) ≡ normalize_path (p ++ (slash ∷ q))
  drops_middle p q = same_normal _ _ (
      components-append p (step ++ (slash ∷ q))
      ∙ ap (normalize_loop (components p)) (split-append step q)
      ∙ no_effect (components p) (split q)
      ∙ sym (components-append p q))

  drops_end : (p : List ℕ) → normalize_path (p ++ (slash ∷ step)) ≡ normalize_path p
  unfolding normalize_loop
  drops_end p = same_normal _ _ (
      components-append p step
      ∙ ap (normalize_loop (components p)) (sym (append-nil (split step)))
      ∙ no_effect (components p) [])

  drops_front : (q : List ℕ) → normalize_path (step ++ (slash ∷ q)) ≡ normalize_path q
  unfolding components
  drops_front q =
      same_normal _ _ (ap (normalize_loop []) (split-append step q) ∙ no_effect [] (split q))

-- A piece of a path that has no effect, wherever it stands: between two others, at the end, at the start.
pub record DropsOut (step : List ℕ) : Type 0 where
  pub in_middle :
      (p q : List ℕ)
      → normalize_path (p ++ (slash ∷ (step ++ (slash ∷ q)))) ≡ normalize_path (p ++ (slash ∷ q))
  pub at_end : (p : List ℕ) → normalize_path (p ++ (slash ∷ step)) ≡ normalize_path p
  pub at_front : (q : List ℕ) → normalize_path (step ++ (slash ∷ q)) ≡ normalize_path q

drops_out :
    (step : List ℕ)
    → ((cs rest : List (List ℕ)) → normalize_loop cs (split step ++ rest) ≡ normalize_loop cs rest)
    → DropsOut step
drops_out step h = record {
  in_middle = drops_middle step h;
  at_end = drops_end step h;
  at_front = drops_front step h;
}

-- A name followed by `..` drops out of the path, for a name that is not empty, `.` or `..` and has
-- no slash; so do a `.` and a doubled slash. Each drops out between other parts of the path, at the
-- end of the path and at its start.
pub normalize_path-lexical :
    (name : List ℕ)
    → IsPlain name
    → DropsOut (name ++ (slash ∷ dot ∷ dot ∷ [])) × DropsOut (dot ∷ []) × DropsOut []
unfolding normalize_loop normalize_step split
normalize_path-lexical name h = (
  drops_out (name ++ (slash ∷ dot ∷ dot ∷ [])) (λ cs rest.
      ap (λ ps. normalize_loop cs (ps ++ rest))
        (split-NoSlash_append name (dot ∷ dot ∷ []) h.no_slash)
      ∙ components_up cs name rest h),
  drops_out (dot ∷ []) (λ cs rest. refl),
  drops_out [] (λ cs rest. refl),
)
