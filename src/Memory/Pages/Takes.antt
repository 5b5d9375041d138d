-- ===== src/Memory/Pages/Takes.antt =====
-- How a change of one node's bitmap shows in the set of free addresses.
use zenos.Common.{
  and_true, ℕ, ◌+◌, ◌*◌, ◌≤◌, ◌<◌, ◌≡◌, inl, inr, refl, sym, ap, ◌∙◌, true, false, ◌&&◌, ◌||◌, not,
  List, [], ◌∷◌, arith, ltb, leb, All, if_cases, Bool-cases, if_of_true, if_of_false,
}
use zenos.Memory.Pages.{
  Word, BitmapNode, PageAllocator, page_4k, pages_in, bit_at, inside, page_of, with_bitmap,
}
use zenos.Memory.Pages.Spec.{is_free, is_managed, NodeOk, Apart, in_pages, Takes}

pub inside-page :
    (node : BitmapNode) (q : ℕ)
    → inside node q ≡ true
    → (node.base_phys ≤ q) × (q < node.base_phys + node.region_size)
unfolding inside
inside-page node q h = ground arith

pub page-inside :
    (node : BitmapNode) (q : ℕ)
    → node.base_phys ≤ q
    → q < node.base_phys + node.region_size
    → inside node q ≡ true
unfolding inside
page-inside node q h l = ground arith

in_pages-bounds : (count p q : ℕ) → in_pages count p q ≡ true → (p ≤ q) × (q < p + count * page_4k)
in_pages-bounds count p q h = ground arith

-- `count` free pages of the first node taken.
pub Takes-here :
    (node : BitmapNode) (nodes : PageAllocator) (words : List Word) (lo count : ℕ)
    → NodeOk node
    → lo + count ≤ pages_in node
    → ((i : ℕ) → bit_at words i ≡ (bit_at node.bitmap i && not (leb lo i && ltb i (lo + count))))
    → ((i : ℕ) → lo ≤ i → i < lo + count → bit_at node.bitmap i ≡ true)
    → Takes count (node.base_phys + lo * page_4k) (node ∷ nodes) (with_bitmap node words ∷ nodes)
unfolding is_free is_managed inside
Takes-here node nodes words lo count ok fits bits free = record {
  was_free = λ q h.
      if_of_true _ _ (inner q h)
      ∙ free (page_of node q) (omega (arith, in_pages-bounds count p q h))
          (omega (arith, in_pages-bounds count p q h));
  removed = λ q. elim (Bool-cases (inside node q)) [
    | inl e ↦
        if_of_true _ _ e
        ∙ (bits (page_of node q)
            ∙ (same q e ∙ ap (λ b. b && not (in_pages count p q)) (sym (if_of_true _ _ e))))
    | inr e ↦
        if_of_false _ _ e
        ∙ (out q e ∙ ap (λ b. b && not (in_pages count p q)) (sym (if_of_false _ _ e)))
  ];
  same_regions = λ q. refl;
}
  where
    p : ℕ
    p = node.base_phys + lo * page_4k

    inner : (q : ℕ) → in_pages count p q ≡ true → inside node q ≡ true
    inner q h =
        page-inside node q (omega (arith, in_pages-bounds count p q h))
          (omega (arith, in_pages-bounds count p q h, ok.size_aligned))

    same :
        (q : ℕ)
        → inside node q ≡ true
        → (bit_at node.bitmap (page_of node q)
            && not (leb lo (page_of node q) && ltb (page_of node q) (lo + count)))
          ≡ (bit_at node.bitmap (page_of node q) && not (in_pages count p q))
    same q e =
        ap (λ b. bit_at node.bitmap (page_of node q) && not b)
          (ground (arith, inside-page node q e))

    out :
        (q : ℕ)
        → inside node q ≡ false
        → is_free nodes q ≡ (is_free nodes q && not (in_pages count p q))
    out q e = elim (Bool-cases (in_pages count p q)) [
      | inl i ↦ absurd (cc (inner q i, e))
      | inr i ↦ rw i (sym (and_true (is_free nodes q)))
    ]

Apart-outside :
    (node m : BitmapNode) (q : ℕ) → Apart node m → inside m q ≡ true → inside node q ≡ false
unfolding inside
Apart-outside node m q (inl h) e = ground arith
Apart-outside node m q (inr h) e = ground arith

-- No address that is free in the later nodes is of a node apart from them.
free-outside :
    (node : BitmapNode) (nodes : PageAllocator) (q : ℕ)
    → All (Apart node) nodes
    → is_free nodes q ≡ true
    → inside node q ≡ false
unfolding is_free
free-outside node [] q a = λ h. cc
free-outside node (m ∷ nodes) q a =
    if_cases (λ b. b ≡ true → inside node q ≡ false) (inside m q)
      (λ e h. Apart-outside node m q a.0 e) (λ e h. free-outside node nodes q a.1 h)

-- A change in the later nodes.
pub Takes-there :
    (node : BitmapNode) (nodes later : PageAllocator) (count p : ℕ)
    → All (Apart node) nodes
    → Takes count p nodes later
    → Takes count p (node ∷ nodes) (node ∷ later)
unfolding is_free is_managed
Takes-there node nodes later count p apart t = record {
  was_free =
      λ q h. if_of_false _ _ (free-outside node nodes q apart (t.was_free q h)) ∙ t.was_free q h;
  removed = λ q. elim (Bool-cases (inside node q)) [
    | inl e ↦
        if_of_true _ _ e
        ∙ (out q e ∙ ap (λ b. b && not (in_pages count p q)) (sym (if_of_true _ _ e)))
    | inr e ↦
        if_of_false _ _ e
        ∙ (t.removed q ∙ ap (λ b. b && not (in_pages count p q)) (sym (if_of_false _ _ e)))
  ];
  same_regions = λ q. ap (λ b. inside node q || b) (t.same_regions q);
}
  where
    out :
        (q : ℕ)
        → inside node q ≡ true
        → bit_at node.bitmap (page_of node q)
          ≡ (bit_at node.bitmap (page_of node q) && not (in_pages count p q))
    out q e = elim (Bool-cases (in_pages count p q)) [
      | inl i ↦ absurd (cc (free-outside node nodes q apart (t.was_free q i), e))
      | inr i ↦ rw i (sym (and_true (bit_at node.bitmap (page_of node q))))
    ]

-- A free address is of a region.
pub is_free-is_managed : (a : PageAllocator) (q : ℕ) → is_free a q ≡ true → is_managed a q ≡ true
unfolding is_free is_managed
is_free-is_managed [] q = λ h. cc
is_free-is_managed (node ∷ nodes) q =
    if_cases (λ b. b ≡ true → (inside node q || is_managed nodes q) ≡ true) (inside node q)
      (λ e h. ground (arith, e)) (λ e h. ground (arith, is_free-is_managed nodes q h))
