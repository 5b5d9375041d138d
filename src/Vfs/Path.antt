-- ===== src/Vfs/Path.antt =====
-- `normalize_path` of zenos-kernel/src/disk/vfs.rs. A path is the list of its bytes.
pub mod Normal
use zenos.Common.{
  ℕ, suc, ◌+◌, ◌≡◌, refl, sym, ap, ◌∙◌, Bool, true, false, ◌||◌, List, [], ◌∷◌, ◌++◌, reverse,
  arith, ◌==◌, if◌then◌else◌, Bool-cases, inl, inr, is_empty, All, All-append, append_assoc,
}

abbrev pub slash : ℕ
slash = 47

abbrev pub dot : ℕ
dot = 46

push_head : ℕ → List (List ℕ) → List (List ℕ)
push_head c [] = (c ∷ []) ∷ []
push_head c (p ∷ ps) = (c ∷ p) ∷ ps

split_step : ℕ → List (List ℕ) → List (List ℕ)
unfolding push_head
split_step c ps = if c == slash then [] ∷ ps else push_head c ps

-- `path.split('/')`: the pieces between slashes, empty ones included.
unfoldable pub split : List ℕ → List (List ℕ)
unfolding split_step
split [] = [] ∷ []
split (c ∷ cs) = split_step c (split cs)

-- `components.join("/")`.
unfoldable pub join : List (List ℕ) → List ℕ
join [] = []
join (p ∷ []) = p
join (p ∷ q ∷ ps) = p ++ (slash ∷ join (q ∷ ps))

abbrev is_dot : List ℕ → Bool
is_dot (c ∷ []) = c == dot
is_dot _ = false

abbrev is_dotdot : List ℕ → Bool
is_dotdot (c ∷ d ∷ []) = if c == dot then d == dot else false
is_dotdot _ = false

-- `Vec::pop` on a vector whose last element stands first.
abbrev pop : List (List ℕ) → List (List ℕ)
pop [] = []
pop (p ∷ ps) = ps

-- One turn of the loop: the vector `components`, last element first.
normalize_step : List (List ℕ) → List ℕ → List (List ℕ)
normalize_step components part =
    if is_empty part || is_dot part
    then components
    else if is_dotdot part
    then pop components
    else part ∷ components

normalize_loop : List (List ℕ) → List (List ℕ) → List (List ℕ)
normalize_loop components [] = components
normalize_loop components (part ∷ parts) = normalize_loop (normalize_step components part) parts

pub components : List ℕ → List (List ℕ)
unfolding normalize_loop normalize_step split
components path = normalize_loop [] (split path)

unfoldable pub normalize_path : List ℕ → List ℕ
unfolding components join
normalize_path path = slash ∷ join (reverse (components path))

-- A component that names something: not empty, not `.`, not `..`, and with no slash in it.
abbrev pub NoSlash : List ℕ → Type 0
NoSlash = All (λ c. (c == slash) ≡ false)

pub record IsPlain (p : List ℕ) : Type 0 where
  pub nonempty : is_empty p ≡ false
  pub not_dot : is_dot p ≡ false
  pub not_dotdot : is_dotdot p ≡ false
  pub no_slash : NoSlash p
