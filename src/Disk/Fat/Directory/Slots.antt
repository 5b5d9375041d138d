-- ===== src/Disk/Fat/Directory/Slots.antt =====
-- The slots of a directory: a new entry is listed, and the entries that were there stay.
use zenos.Common.{
  ℕ, zero, suc, ◌+◌, ◌≡◌, ◌≢◌, inl, inr, refl, sym, ap, ◌∙◌, Bool, true, false, ◌||◌, List, [], ◌∷◌,
  ◌++◌, set, drop, Option, none, some, arith, if◌then◌else◌, ◌==◌, get_or, ltb, length, Bool-cases,
  Option-cases, if_of_true,
}
use zenos.Disk.Fat.{FatDirEntry, end_mark, deleted_mark, parse}
use zenos.Disk.Fat.Directory.{Listing, hidden, listed, scan, is_free, free_slot}

parse-deleted : (chunk : List ℕ) → get_or chunk 0 0 ≡ deleted_mark → parse chunk ≡ none
unfolding parse
parse-deleted chunk h =
    if_of_true
      {b = ltb (length chunk) 32
        || get_or chunk 0 0 == end_mark
        || get_or chunk 0 0 == deleted_mark}
      none _ (ground (arith, h))

listed-append :
    (o : Option FatDirEntry) (i : ℕ) (l m : Listing) (ys : List (FatDirEntry × ℕ))
    → l.entries ≡ m.entries ++ ys
    → (listed o i l).entries ≡ (listed o i m).entries ++ ys
listed-append none i l m ys h = h
listed-append (some e) i l m ys h = elim (Bool-cases (hidden e)) [
  | inl hide ↦ rw hide h
  | inr show ↦ rw show (ap (λ t. (e, i) ∷ t) h)
]

-- The first slots.
abbrev pub take : ℕ → List (List ℕ) → List (List ℕ)
take zero cs = []
take (suc n) [] = []
take (suc n) (c ∷ cs) = c ∷ take n cs

-- What the slot of a chunk was: the end of the directory, or an entry that was deleted.
abbrev pub was_end : List (List ℕ) → ℕ → Bool
was_end cs k = get_or (get_or cs k []) 0 0 == end_mark

-- The listing of a directory before and after a chunk is put into slot `k`: what the slots in front
-- of it list, and what those behind it list when they are read.
pub record Inserted (i k : ℕ) (e : FatDirEntry) (cs : List (List ℕ)) (chunk : List ℕ) : Type 0 where
  pub listed_then :
      (scan i cs).entries
      ≡ (scan i (take k cs)).entries
        ++ (if was_end cs k then [] else (scan (i + k + 1) (drop (suc k) cs)).entries)
  pub listed_now :
      (scan i (set cs k chunk)).entries
      ≡ (scan i (take k cs)).entries ++ ((e, i + k) ∷ (scan (i + k + 1) (drop (suc k) cs)).entries)

module _ (e : FatDirEntry) (new : List ℕ) (parsed : parse new ≡ some e) (shows : hidden e ≡ false)
    (no_end : get_or new 0 0 ≢ end_mark) where
  first_slot :
      (i : ℕ) (chunk : List ℕ) (rest : List (List ℕ))
      → is_free chunk ≡ true
      → Inserted i 0 e (chunk ∷ rest) new
  unfolding scan
  first_slot i chunk rest f = record {
    listed_then = elim (Bool-cases (get_or chunk 0 0 == end_mark)) [
      | inl end ↦ rw end refl
      | inr other_mark ↦ rw (other_mark, parse-deleted chunk (ground arith), here) refl
    ];
    listed_now =
        rw (new_goes, parsed, shows, here)
          (ap (λ j. (e, j) ∷ (scan (i + 1) rest).entries) (omega arith));
  }
    where
      here : i + 0 + 1 ≡ i + 1
      here = omega arith

      new_goes : (get_or new 0 0 == end_mark) ≡ false
      new_goes = ground (arith, no_end)

  zero_slot : (k : ℕ) → some k ≡ some 0 → k ≡ 0
  zero_slot k q = cc

  later_slot :
      (i k : ℕ) (chunk : List ℕ) (rest : List (List ℕ))
      → is_free chunk ≡ false
      → Inserted (i + 1) k e rest new
      → Inserted i (suc k) e (chunk ∷ rest) new
  unfolding scan
  later_slot i k chunk rest f n = record {
    listed_then =
        rw (not_end, moved_on)
          (listed-append (parse chunk) i (scan (i + 1) rest) (scan (i + 1) (take k rest)) _
            n.listed_then);
    listed_now =
        rw (not_end, moved_on, moved)
          (listed-append (parse chunk) i (scan (i + 1) (set rest k new))
            (scan (i + 1) (take k rest)) _ n.listed_now);
  }
    where
      not_end : (get_or chunk 0 0 == end_mark) ≡ false
      not_end = ground arith

      moved : i + suc k ≡ i + 1 + k
      moved = omega arith

      moved_on : i + suc k + 1 ≡ i + 1 + k + 1
      moved_on = omega arith

  -- A new entry that is put into the first free slot is listed at its place, behind what the slots in
  -- front list, as before, and in front of what the slots behind hold. Where the slot held a deleted
  -- entry, those were listed before too; where it held the end of the directory, they were not, and are
  -- read as entries from now on, whatever they hold.
  pub free_slot-Inserted :
      (i k : ℕ) (cs : List (List ℕ)) → free_slot cs ≡ some k → Inserted i k e cs new
  unfolding free_slot
  free_slot-Inserted i k [] h = cc
  free_slot-Inserted i k (chunk ∷ rest) h = elim (Bool-cases (is_free chunk)) [
    | inl f ↦
        let z : k ≡ 0 = zero_slot k (sym h ∙ if_of_true (some 0) _ f) in
        rw z (first_slot i chunk rest f)
    | inr f ↦ elim (Option-cases (free_slot rest)) [
      | inl nowhere ↦ absurd (ground arith)
      | inr (j, q) ↦
          let z : k ≡ suc j = ground arith in
          rw z (later_slot i j chunk rest f (free_slot-Inserted (i + 1) j rest q))
    ]
  ]
