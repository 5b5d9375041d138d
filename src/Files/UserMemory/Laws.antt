-- ===== src/Files/UserMemory/Laws.antt =====
-- Which ranges of a process's memory the kernel copies.
use zenos.Common.{
  ℕ, zero, suc, ◌+◌, ◌*◌, ◌/◌, ◌<◌, ◌≤◌, ◌≡◌, ◌↔◌, ◌==◌, refl, Bool, true, false, ◌&&◌, Bool-cases,
  inl, inr, arith, ltb, u64_size, if◌then◌else◌, subst, List, [], ◌∷◌, length, none, some, ap, sym,
  ◌∙◌,
}
use zenos.Files.UserMemory.{
  is_canonical, higher_half_base, walk, user_range_is_mapped, bytes_at, put_bytes, copy_to_user,
  copy_from_user,
}

passed : (c m o r : Bool) → (c && (m && (o && r))) ≡ true → (m ≡ true) × (r ≡ true)
passed c m o r h = (ground arith, ground arith)

module _ (mapped : ℕ → Bool) where
  -- Every byte from the one address up to the other lies on a page that is mapped.
  abbrev pub Backed : ℕ → ℕ → Type 0
  Backed from end = (x : ℕ) → from ≤ x → x < end → mapped (x / 4096 * 4096) ≡ true

  walk-Backed : (fuel q end : ℕ) → walk mapped fuel (q * 4096) end ≡ true → Backed (q * 4096) end
  unfolding walk
  walk-Backed zero q end h x a b = absurd (ground arith)
  walk-Backed (suc fuel) q end h x a b =
      let l : ltb (q * 4096) end ≡ true = ground arith in
      let p =
        passed (is_canonical (q * 4096)) (mapped (q * 4096)) (ltb (q * 4096 + 4096) u64_size)
          (walk mapped fuel (q * 4096 + 4096) end)
          (subst
            (λ t.
              (if t
                then is_canonical (q * 4096)
                  && (mapped (q * 4096)
                      && (ltb (q * 4096 + 4096) u64_size && walk mapped fuel (q * 4096 + 4096) end))
                else true)
              ≡ true)
            l h) in
      elim (Bool-cases (ltb x (q * 4096 + 4096))) [
        | inl e ↦ subst (λ k. mapped (k * 4096) ≡ true) (page q x a (ground arith)) p.0
        | inr e ↦
            walk-Backed fuel (q + 1) end (subst (λ a. walk mapped fuel a end ≡ true) (next q) p.1) x
              (ground arith) b
      ]
    where
      next : (q : ℕ) → q * 4096 + 4096 ≡ (q + 1) * 4096
      next q = omega arith

      page : (q x : ℕ) → q * 4096 ≤ x → x < q * 4096 + 4096 → q ≡ x / 4096
      page q x a b = omega arith

  -- In the lower half the walk passes where the pages are there, with fuel for each page.
  Backed-walk :
      (fuel q end : ℕ)
      → end ≤ 0x800000000000
      → end ≤ (q + fuel) * 4096
      → Backed (q * 4096) end
      → walk mapped fuel (q * 4096) end ≡ true
  unfolding walk
  Backed-walk zero q end low f h = ground arith
  Backed-walk (suc fuel) q end low f h = elim (Bool-cases (ltb (q * 4096) end)) [
    | inr e ↦ rw e refl
    | inl e ↦
        let m : mapped (q * 4096) ≡ true =
          subst (λ k. mapped (k * 4096) ≡ true) (own q)
            (h (q * 4096) (omega arith) (ground arith)) in
        let c : is_canonical (q * 4096) ≡ true = ground arith in
        let o : ltb (q * 4096 + 4096) u64_size ≡ true = ground arith in
        let r : walk mapped fuel (q * 4096 + 4096) end ≡ true =
          subst (λ a. walk mapped fuel a end ≡ true) (next q)
            (Backed-walk fuel (q + 1) end low (omega arith) (λ x a b. h x (omega arith) b)) in
        rw (e, c, m, o, r) refl
  ]
    where
      own : (q : ℕ) → q * 4096 / 4096 ≡ q
      own q = omega arith

      next : (q : ℕ) → (q + 1) * 4096 ≡ q * 4096 + 4096
      next q = omega arith

  -- The check is the walk, from the start of the first page.
  check-walk :
      (user_ptr len : ℕ)
      → 0 < user_ptr
      → 0 < len
      → user_ptr + len ≤ 0x800000000000
      → user_range_is_mapped mapped user_ptr len
        ≡ walk mapped (len / 4096 + 2) (user_ptr / 4096 * 4096) (user_ptr + len)
  unfolding user_range_is_mapped
  check-walk user_ptr len p l low =
      let a : (user_ptr == 0) ≡ false = ground arith in
      let b : (len == 0) ≡ false = ground arith in
      let c : ltb user_ptr higher_half_base ≡ true = ground arith in
      let d : ltb (user_ptr + len) u64_size ≡ true = ground arith in rw (a, b, c, d) refl

  -- The bytes of the first page before the range are on a page of the range.
  Backed-page :
      (user_ptr len : ℕ)
      → 0 < len
      → Backed user_ptr (user_ptr + len)
      → Backed (user_ptr / 4096 * 4096) (user_ptr + len)
  Backed-page user_ptr len l h x a b = elim (Bool-cases (ltb x user_ptr)) [
    | inr e ↦ h x (ground arith) b
    | inl e ↦
        subst (λ k. mapped (k * 4096) ≡ true) (same user_ptr x a (ground arith))
          (h user_ptr (omega arith) (omega arith))
  ]
    where
      same : (u x : ℕ) → u / 4096 * 4096 ≤ x → x < u → u / 4096 ≡ x / 4096
      same u x a b = omega arith

  -- A range of the lower half, not empty and not from the null pointer, passes the check exactly where
  -- each of its bytes lies on a page that is mapped.
  pub user_range_is_mapped-Backed :
      (user_ptr len : ℕ)
      → 0 < user_ptr
      → 0 < len
      → user_ptr + len ≤ 0x800000000000
      → (user_range_is_mapped mapped user_ptr len ≡ true) ↔ Backed user_ptr (user_ptr + len)
  user_range_is_mapped-Backed user_ptr len p l low =
      let q = check-walk user_ptr len p l low in
      (
        (λ h x a b.
            walk-Backed (len / 4096 + 2) (user_ptr / 4096) (user_ptr + len) (sym q ∙ h) x
              (omega arith) b),
        (λ h.
            q
            ∙ Backed-walk (len / 4096 + 2) (user_ptr / 4096) (user_ptr + len) low (omega arith)
                (Backed-page user_ptr len l h)),
      )

bytes_at-agree :
    (f g : ℕ → ℕ) (addr n : ℕ)
    → ((x : ℕ) → addr ≤ x → f x ≡ g x)
    → bytes_at f addr n ≡ bytes_at g addr n
bytes_at-agree f g addr zero h = refl
bytes_at-agree f g addr (suc n) h =
    rw (h addr (omega arith))
      (ap (λ bs. g addr ∷ bs) (bytes_at-agree f g (addr + 1) n (λ x a. h x (omega arith))))

bytes_at-put_bytes :
    (mem : ℕ → ℕ) (addr : ℕ) (buf : List ℕ)
    → bytes_at (put_bytes mem addr buf) addr (length buf) ≡ buf
bytes_at-put_bytes mem addr [] = refl
bytes_at-put_bytes mem addr (b ∷ bs) = rw (own addr) (
    ap (λ cs. b ∷ cs)
      (bytes_at-agree (put_bytes mem addr (b ∷ bs)) (put_bytes mem (addr + 1) bs) (addr + 1)
          (length bs) (λ x a. rw (later x a) refl)
        ∙ bytes_at-put_bytes mem (addr + 1) bs))
  where
    own : (a : ℕ) → (a == a) ≡ true
    own a = ground arith

    later : (x : ℕ) → addr + 1 ≤ x → (x == addr) ≡ false
    later x a = ground arith

-- The copies, where the check of the range has come out as `passes`.
copied_back :
    (passes : Bool) (mem mem' : ℕ → ℕ) (addr : ℕ) (buf : List ℕ)
    → (if passes then some (put_bytes mem addr buf) else none) ≡ some mem'
    → (if passes then some (bytes_at mem' addr (length buf)) else none) ≡ some buf
copied_back true mem mem' addr buf h =
    ap some
      (ap (λ m. bytes_at m addr (length buf)) (sym (unwrap h)) ∙ bytes_at-put_bytes mem addr buf)
  where
    unwrap : {f g : ℕ → ℕ} → some f ≡ some g → f ≡ g
    unwrap q = cc
copied_back false mem mem' addr buf h = absurd (impossible h)
  where
    impossible : {f : ℕ → ℕ} → none ≡ some f → ⊥
    impossible q = cc

-- Bytes that were copied to a process, whatever pages are mapped, are what is copied back from there.
pub copy_from_user-copy_to_user :
    (mapped : ℕ → Bool) (mem mem' : ℕ → ℕ) (user_ptr : ℕ) (buf : List ℕ)
    → copy_to_user mapped mem user_ptr buf ≡ some mem'
    → copy_from_user mapped mem' user_ptr (length buf) ≡ some buf
unfolding copy_to_user copy_from_user
copy_from_user-copy_to_user mapped mem mem' user_ptr [] h = refl
copy_from_user-copy_to_user mapped mem mem' user_ptr (b ∷ bs) h =
    let z : (length (b ∷ bs) == 0) ≡ false = ground arith in
    rw z (copied_back _ mem mem' user_ptr (b ∷ bs) (rw z at h))
