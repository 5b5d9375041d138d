-- ===== src/Input/Editing.antt =====
-- The blocking reads as an editor of one line.
use zenos.Common.{
  ℕ, zero, suc, ◌+◌, ◌-◌, ◌<◌, ◌≤◌, ◌≡◌, refl, sym, ap, subst, ◌∙◌, Bool, true, false, List, [],
  ◌∷◌, ◌++◌, if◌then◌else◌, ltb, ◌==◌, length, set, arith, length-set, length-append, Bool-cases,
  ltb→lt, inl, inr, if_of_true, if_of_false,
}
use zenos.Input.{edit, Reading, returned, waiting, newline, backspace, stdin_read}

-- The bytes of a buffer before a place.
abbrev pub take : ℕ → List ℕ → List ℕ
take zero xs = []
take (suc n) [] = []
take (suc n) (x ∷ xs) = x ∷ take n xs

abbrev pub butlast : List ℕ → List ℕ
butlast [] = []
butlast (x ∷ []) = []
butlast (x ∷ y ∷ xs) = x ∷ butlast (y ∷ xs)

-- A line after one more byte.
abbrev pub type_byte : ℕ → List ℕ → List ℕ
type_byte byte line = if byte == backspace then butlast line else line ++ (byte ∷ [])

-- A line of at most `room` bytes typed byte by byte. It ends at a newline, which is its last byte, or
-- when it is full; the flag says that it goes on, and the rest of the bytes is what it did not take.
abbrev pub edit_line : ℕ → List ℕ → List ℕ → List ℕ × (Bool × List ℕ)
edit_line room line [] = (line, (ltb (length line) room, []))
edit_line room line (byte ∷ queue) =
    let rest = edit_line room (type_byte byte line) queue in
    if ltb (length line) room
    then (if byte == newline then (line ++ (byte ∷ []), (false, queue)) else rest)
    else (line, (false, byte ∷ queue))

-- The read stands where the line does: ended or not, the line in the first bytes of the buffer.
abbrev pub Holds : List ℕ × (Bool × List ℕ) → Reading → Type 0
Holds (line, (more, rest)) (returned count buffer flag queue) =
    (count ≡ length line) × ((take count buffer ≡ line) × ((more ≡ false) × (rest ≡ queue)))
Holds (line, (more, rest)) (waiting count buffer) =
    (count ≡ length line) × ((take count buffer ≡ line) × (more ≡ true))

take-set :
    (xs : List ℕ) (i : ℕ) (v : ℕ)
    → i < length xs
    → take (suc i) (set xs i v) ≡ take i xs ++ (v ∷ [])
take-set [] i v h = absurd (omega arith)
take-set (x ∷ xs) zero v h = refl
take-set (x ∷ xs) (suc i) v h = ap (◌∷◌ x) (take-set xs i v (omega arith))

take-butlast : (xs : List ℕ) (i : ℕ) → i < length xs → take i xs ≡ butlast (take (suc i) xs)
take-butlast [] i h = absurd (omega arith)
take-butlast (x ∷ xs) zero h = refl
take-butlast (x ∷ []) (suc i) h = absurd (omega arith)
take-butlast (x ∷ y ∷ xs) (suc i) h = ap (◌∷◌ x) (take-butlast (y ∷ xs) i (omega arith))

take-pred : (xs : List ℕ) (i : ℕ) → i ≤ length xs → take (i - 1) xs ≡ butlast (take i xs)
take-pred xs zero h = refl
take-pred xs (suc i) h = ap (λ k. take k xs) (back i) ∙ take-butlast xs i (omega arith)
  where
    back : (i : ℕ) → suc i - 1 ≡ i
    back i = omega arith

length-butlast : (xs : List ℕ) → length (butlast xs) ≡ length xs - 1
length-butlast [] = refl
length-butlast (x ∷ []) = refl
length-butlast (x ∷ y ∷ xs) = omega (arith, length-butlast (y ∷ xs))

-- A buffer whose first bytes are the line.
abbrev pub Prefix : List ℕ → List ℕ → ℕ → Type 0
Prefix line buffer count =
    (count ≡ length line) × ((take count buffer ≡ line) × (count ≤ length buffer))

Prefix-append :
    (line buffer : List ℕ) (count byte : ℕ)
    → Prefix line buffer count
    → count < length buffer
    → Prefix (line ++ (byte ∷ [])) (set buffer count byte) (count + 1)
Prefix-append line buffer count byte p l = (
  omega (arith, p.0, length-append line (byte ∷ [])),
  (
    ap (λ k. take k (set buffer count byte)) (next count)
        ∙ take-set buffer count byte l
        ∙ ap (λ xs. xs ++ (byte ∷ [])) p.1.0,
    omega (arith, length-set buffer count byte),
  ),
)
  where
    next : (k : ℕ) → k + 1 ≡ suc k
    next k = omega arith

edit-Prefix :
    (line buffer : List ℕ) (count byte : ℕ)
    → Prefix line buffer count
    → count < length buffer
    → Prefix (type_byte byte line) (edit byte buffer count).0 (edit byte buffer count).1
      × (length (edit byte buffer count).0 ≡ length buffer)
edit-Prefix line buffer count byte p l = elim (Bool-cases (byte == backspace)) [
  | inl e ↦ rw e (
    (
      omega (arith, p.0, length-butlast line),
      (take-pred buffer count p.1.1 ∙ ap butlast p.1.0, omega (arith, p.1.1)),
    ),
    refl,
  )
  | inr e ↦ rw e (Prefix-append line buffer count byte p l, length-set buffer count byte)
]

same_room :
    (line buffer : List ℕ) (count : ℕ) {b : Bool}
    → Prefix line buffer count
    → ltb count (length buffer) ≡ b
    → ltb (length line) (length buffer) ≡ b
same_room line buffer count {b = b} p e = subst (λ c. ltb c (length buffer) ≡ b) p.0 e

-- A read of standard input is the editing of a line in the buffer: what it returns is the line as the
-- editor ends it, the newline included, and while the line goes on the read waits.
pub stdin_read-Holds :
    (queue line buffer : List ℕ) (count : ℕ)
    → Prefix line buffer count
    → Holds (edit_line (length buffer) line queue) (stdin_read queue buffer count)
unfolding stdin_read
stdin_read-Holds [] line buffer count p = elim (Bool-cases (ltb count (length buffer))) [
  | inl e ↦ rw (e, same_room line buffer count p e) (p.0, (p.1.0, refl))
  | inr e ↦ rw (e, same_room line buffer count p e) (p.0, (p.1.0, (refl, refl)))
]
stdin_read-Holds (byte ∷ queue) line buffer count p =
    elim (Bool-cases (ltb count (length buffer))) [
      | inr e ↦ rw (e, same_room line buffer count p e) (p.0, (p.1.0, (refl, refl)))
      | inl e ↦
          rw (e, same_room line buffer count p e)
            (elim (Bool-cases (byte == newline)) [
              | inl n ↦ rw n (added (ltb→lt count (length buffer) e))
              | inr n ↦ rw n (
                  later (ltb→lt count (length buffer) e) (
                    stdin_read-Holds queue (type_byte byte line) (edit byte buffer count).0
                      (edit byte buffer count).1))
            ])
    ]
  where
    added :
        count < length buffer
        → Holds
            (line ++ (byte ∷ []), (false, queue))
            (returned (count + 1) (set buffer count byte) false queue)
    added l = let q = Prefix-append line buffer count byte p l in (q.0, (q.1.0, (refl, refl)))

    later :
        count < length buffer
        → (Prefix (type_byte byte line) (edit byte buffer count).0 (edit byte buffer count).1
            → Holds
                (edit_line (length (edit byte buffer count).0) (type_byte byte line) queue)
                (stdin_read queue (edit byte buffer count).0 (edit byte buffer count).1))
        → Holds
            (edit_line (length buffer) (type_byte byte line) queue)
            (stdin_read queue (edit byte buffer count).0 (edit byte buffer count).1)
    later l ih =
        let q = edit-Prefix line buffer count byte p l in
        subst
          (λ m.
            Holds (edit_line m (type_byte byte line) queue)
              (stdin_read queue (edit byte buffer count).0 (edit byte buffer count).1))
          q.1 (ih q.0)

-- A read that is resumed with the bytes that came while it waited.
abbrev pub resume : List ℕ → Reading → Reading
resume more (returned count buffer flag queue) = returned count buffer flag (queue ++ more)
resume more (waiting count buffer) = stdin_read more buffer count

stdin_read-full :
    (queue buffer : List ℕ) (count : ℕ)
    → ltb count (length buffer) ≡ false
    → stdin_read queue buffer count ≡ returned count buffer false queue
unfolding stdin_read
stdin_read-full [] buffer count e = if_of_false {b = ltb count (length buffer)} _ _ e
stdin_read-full (byte ∷ queue) buffer count e = if_of_false {b = ltb count (length buffer)} _ _ e

-- It does not matter whether bytes come while the process waits or were there before: a read that is
-- woken and goes on gives what a read of all the bytes at once gives, and leaves the same queue.
stdin_read-append :
    (queue more buffer : List ℕ) (count : ℕ)
    → stdin_read (queue ++ more) buffer count ≡ resume more (stdin_read queue buffer count)
unfolding stdin_read
stdin_read-append [] more buffer count = elim (Bool-cases (ltb count (length buffer))) [
  | inl e ↦ ap (resume more) (sym (if_of_true {b = ltb count (length buffer)} _ _ e))
  | inr e ↦
      stdin_read-full more buffer count e
      ∙ ap (resume more) (sym (if_of_false {b = ltb count (length buffer)} _ _ e))
]
stdin_read-append (byte ∷ queue) more buffer count = elim (Bool-cases (ltb count (length buffer))) [
  | inr e ↦ rw (stdin_read, e) refl
  | inl e ↦ elim (Bool-cases (byte == newline)) [
    | inl n ↦ rw (stdin_read, e, n) refl
    | inr n ↦
        rw (stdin_read, e, n)
          (stdin_read-append queue more (edit byte buffer count).0 (edit byte buffer count).1)
  ]
]

-- A read of standard input ends as soon as a newline is in the queue, whatever stands before it.
pub stdin_read-newline :
    (before after buffer : List ℕ) (count : ℕ)
    → (r : ℕ × (List ℕ × List ℕ)) × (stdin_read (before ++ (newline ∷ after)) buffer count
        ≡ returned r.0 r.1.0 false r.1.1)
unfolding stdin_read
stdin_read-newline [] after buffer count = elim (Bool-cases (ltb count (length buffer))) [
  | inl e ↦ rw e (_, refl)
  | inr e ↦ rw e (_, refl)
]
stdin_read-newline (byte ∷ before) after buffer count =
    elim (Bool-cases (ltb count (length buffer))) [
      | inr e ↦ rw e (_, refl)
      | inl e ↦ elim (Bool-cases (byte == newline)) [
        | inl n ↦ rw (e, n) (_, refl)
        | inr n ↦
            rw (e, n)
              (stdin_read-newline before after (edit byte buffer count).0
                (edit byte buffer count).1)
      ]
    ]
