-- ===== src/Tty/Ansi/Sequences.antt =====
-- What the terminal of zenos-kernel/src/tty/mod.rs makes of whole escape sequences.
use zenos.Common.{
  ℕ, ◌+◌, ◌-◌, ◌*◌, ◌≤◌, ◌≡◌, ◌≢◌, refl, sym, ap, ◌∙◌, arith, ◌&&◌, List, [], ◌∷◌, ◌++◌,
  if◌then◌else◌, ◌==◌, ltb, leb, All, min, max, Bool-cases, inl, inr, ◌⊎◌, if_of_true, if_of_false,
}
use zenos.Tty.Device.{
  AnsiState, normal, escape, csi, csi_param, Screen, Tty, move_to, write_visible_char,
}
use zenos.Tty.Ansi.{
  first_or, reset_ansi_state, cursor_up, cursor_down, cursor_forward, cursor_back, push_last,
  command, process_csi_command, add_digit, write_csi, write_in, write_char_internal, write_bytes,
}

-- No sequence is under way.
pub record Idle (t : Tty) : Type 0 where
  pub is_normal : t.ansi_state ≡ normal
  pub no_params : t.ansi_params ≡ []
  pub no_current : t.ansi_current_param ≡ 0

-- The number that decimal digits write, going on from `n`.
unfoldable pub decimal : ℕ → List ℕ → ℕ
decimal n [] = n
decimal n (c ∷ cs) = decimal (n * 10 + (c - 48)) cs

abbrev pub IsDigit : ℕ → Type 0
IsDigit c = (48 ≤ c) × (c ≤ 57)

Idle-reset :
    (t : Tty)
    → Idle t
    → record t { ansi_state = normal; ansi_params = []; ansi_current_param = 0 } ≡ t
Idle-reset t h = λ i. record t {
  ansi_state = sym h.is_normal i;
  ansi_params = sym h.no_params i;
  ansi_current_param = sym h.no_current i;
}

module _ (screen : Screen) where
  open screen use {cols, rows}

  write_normal :
      (c : ℕ) (t : Tty)
      → t.ansi_state ≡ normal
      → c ≢ 0x1b
      → write_char_internal screen c t ≡ write_visible_char screen c t
  unfolding write_char_internal write_in
  write_normal c t e n =
      ap (λ st. write_in screen st c t) e ∙ if_of_false {b = c == 0x1b} _ _ (ground arith)

  write_escape :
      (t : Tty)
      → t.ansi_state ≡ normal
      → write_char_internal screen 0x1b t ≡ record t { ansi_state = escape }
  unfolding write_char_internal write_in
  write_escape t e = ap (λ st. write_in screen st 0x1b t) e

  -- An escape before a character that does not begin a CSI sequence leaves no trace: the
  -- character is written as if it stood alone.
  pub write_bytes-drops_escape :
      (c : ℕ) (t : Tty)
      → Idle t
      → c ≢ 0x5b
      → c ≢ 0x1b
      → write_bytes screen (0x1b ∷ c ∷ []) t ≡ write_bytes screen (c ∷ []) t
  unfolding write_bytes write_char_internal write_in reset_ansi_state
  write_bytes-drops_escape c t h n m =
      ap (write_char_internal screen c) (write_escape t h.is_normal)
      ∙ escaped
      ∙ ap (write_visible_char screen c) (Idle-reset t h)
      ∙ sym (write_normal c t h.is_normal m)
    where
      escaped :
          write_char_internal screen c (record t { ansi_state = escape })
          ≡ write_visible_char screen c
              (record t { ansi_state = normal; ansi_params = []; ansi_current_param = 0 })
      escaped = if_of_false {b = c == 0x5b} _ _ (ground arith)

  -- The parser's state among the digits of a first parameter.
  abbrev reading : AnsiState → ℕ → Tty → Tty
  reading st n t = record t { ansi_state = st; ansi_params = []; ansi_current_param = n }

  write_csi-digit :
      (c n : ℕ) (t : Tty) (st : AnsiState)
      → IsDigit c
      → write_csi screen c (reading st n t) ≡ reading csi_param (add_digit screen n c) t
  unfolding write_csi
  write_csi-digit c n t st d = if_of_true {b = leb 48 c && leb c 57} _ _ (ground arith)

  write_csi-command :
      (c : ℕ) (t : Tty)
      → 0x40 ≤ c
      → c ≤ 0x7e
      → write_csi screen c t ≡ process_csi_command screen c t
  unfolding write_csi
  write_csi-command c t a b =
      if_of_false {b = leb 48 c && leb c 57} _ _ (ground arith)
      ∙ if_of_false {b = c == 59} _ _ (ground arith)
      ∙ if_of_true {b = leb 0x40 c && leb c 0x7e} _ _ (ground arith)

  -- The state after the digits, from within them.
  write_digits :
      (ds cs : List ℕ) (n : ℕ) (t : Tty)
      → All IsDigit ds
      → write_bytes screen (ds ++ cs) (reading csi_param (min n 65535) t)
        ≡ write_bytes screen cs (reading csi_param (min (decimal n ds) 65535) t)
  unfolding write_bytes decimal write_char_internal write_in add_digit
  write_digits [] cs n t h = refl
  write_digits (c ∷ ds) cs n t h =
      ap (write_bytes screen (ds ++ cs)) (step ∙ ap (λ k. reading csi_param k t) value)
      ∙ write_digits ds cs (n * 10 + (c - 48)) t h.1
    where
      step :
          write_char_internal screen c (reading csi_param (min n 65535) t)
          ≡ reading csi_param (add_digit screen (min n 65535) c) t
      step = write_csi-digit c (min n 65535) t csi_param h.0

      value : add_digit screen (min n 65535) c ≡ min (n * 10 + (c - 48)) 65535
      value = omega arith

  write_first_digit :
      (c : ℕ) (ds cs : List ℕ) (t : Tty)
      → IsDigit c
      → All IsDigit ds
      → write_bytes screen (c ∷ (ds ++ cs)) (reading csi 0 t)
        ≡ write_bytes screen cs (reading csi_param (min (decimal 0 (c ∷ ds)) 65535) t)
  unfolding write_bytes decimal write_char_internal write_in add_digit
  write_first_digit c ds cs t h hs =
      ap (write_bytes screen (ds ++ cs)) (step ∙ ap (λ k. reading csi_param k t) value)
      ∙ write_digits ds cs (0 * 10 + (c - 48)) t hs
    where
      step :
          write_char_internal screen c (reading csi 0 t)
          ≡ reading csi_param (add_digit screen 0 c) t
      step = write_csi-digit c 0 t csi h

      value : add_digit screen 0 c ≡ min (0 * 10 + (c - 48)) 65535
      value = omega arith

  -- `ESC [`, a number in decimal digits that may be missing, and a command character.
  abbrev pub sequence : List ℕ → ℕ → List ℕ
  sequence ds cmd = 0x1b ∷ 0x5b ∷ (ds ++ (cmd ∷ []))

  write_opening :
      (cs : List ℕ) (t : Tty)
      → Idle t
      → write_bytes screen (0x1b ∷ 0x5b ∷ cs) t ≡ write_bytes screen cs (reading csi 0 t)
  unfolding write_bytes write_char_internal write_in
  write_opening cs t h =
      ap (λ u. write_bytes screen cs (write_char_internal screen 0x5b u))
        (write_escape t h.is_normal)
      ∙ ap (write_bytes screen cs) bracket
    where
      bracket : write_char_internal screen 0x5b (record t { ansi_state = escape }) ≡ reading csi 0 t
      bracket = refl

  write_command :
      (cmd n : ℕ) (t : Tty) (st : AnsiState)
      → ((st ≡ csi) ⊎ (st ≡ csi_param))
      → 0x40 ≤ cmd
      → cmd ≤ 0x7e
      → write_bytes screen (cmd ∷ []) (reading st n t)
        ≡ process_csi_command screen cmd (reading st n t)
  unfolding write_bytes write_char_internal write_in
  write_command cmd n t st (inl e) a b =
      ap (λ s. write_in screen s cmd (reading st n t)) e
      ∙ write_csi-command cmd (reading st n t) a b
  write_command cmd n t st (inr e) a b =
      ap (λ s. write_in screen s cmd (reading st n t)) e
      ∙ write_csi-command cmd (reading st n t) a b

  -- How many places a move with a given parameter goes.
  abbrev pub count : ℕ → ℕ
  count v = max (min v 65535) 1

  -- The parameters that `process_csi_command` passes on for one number.
  pushed_params : ℕ → List ℕ
  pushed_params v = if ltb 0 v then v ∷ [] else []

  push_last-reading :
      (st : AnsiState) (v : ℕ) (t : Tty)
      → push_last screen (reading st v t)
        ≡ record t { ansi_state = st; ansi_params = pushed_params v; ansi_current_param = v }
  unfolding push_last pushed_params
  push_last-reading st v t = elim (Bool-cases (ltb 0 v)) [ inl e ↦ rw e refl | inr e ↦ rw e refl ]

  steps-pushed : (v : ℕ) → max (first_or 1 (pushed_params v)) 1 ≡ max v 1
  unfolding pushed_params
  steps-pushed v = ground arith

  abbrev idle_at : ℕ → ℕ → Tty → Tty
  idle_at x y t = record t {
    x = x;
    y = y;
    ansi_state = normal;
    ansi_params = [];
    ansi_current_param = 0;
  }

  idle_at-move_to : (x y : ℕ) (t : Tty) → Idle t → idle_at x y t ≡ move_to x y t
  unfolding move_to
  idle_at-move_to x y t h =
      Idle-reset (move_to x y t)
        (record { is_normal = h.is_normal; no_params = h.no_params; no_current = h.no_current })

  module _ (st : AnsiState) (v : ℕ) (t : Tty) where
    move_command :
        (cmd : ℕ)
        → process_csi_command screen cmd (reading st v t)
          ≡ reset_ansi_state (
              command screen cmd (record t {
                ansi_state = st;
                ansi_params = pushed_params v;
                ansi_current_param = v;
              }))
    unfolding process_csi_command
    move_command cmd = ap (λ u. reset_ansi_state (command screen cmd u)) (push_last-reading st v t)

    up_command : process_csi_command screen 0x41 (reading st v t) ≡ idle_at t.x (t.y - max v 1) t
    unfolding command cursor_up reset_ansi_state move_to
    up_command = move_command 0x41 ∙ ap (λ n. idle_at t.x (t.y - n) t) (steps-pushed v)

    down_command :
        process_csi_command screen 0x42 (reading st v t)
        ≡ idle_at t.x (min (t.y + max v 1) (rows - 1)) t
    unfolding command cursor_down reset_ansi_state move_to
    down_command =
        move_command 0x42 ∙ ap (λ n. idle_at t.x (min (t.y + n) (rows - 1)) t) (steps-pushed v)

    forward_command :
        process_csi_command screen 0x43 (reading st v t)
        ≡ idle_at (min (t.x + max v 1) (cols - 1)) t.y t
    unfolding command cursor_forward reset_ansi_state move_to
    forward_command =
        move_command 0x43 ∙ ap (λ n. idle_at (min (t.x + n) (cols - 1)) t.y t) (steps-pushed v)

    back_command : process_csi_command screen 0x44 (reading st v t) ≡ idle_at (t.x - max v 1) t.y t
    unfolding command cursor_back reset_ansi_state move_to
    back_command = move_command 0x44 ∙ ap (λ n. idle_at (t.x - n) t.y t) (steps-pushed v)

  -- A whole sequence is its command, on the number that its digits write, cut to 16 bits.
  write_sequence :
      (ds : List ℕ) (cmd : ℕ) (t : Tty)
      → All IsDigit ds
      → Idle t
      → 0x40 ≤ cmd
      → cmd ≤ 0x7e
      → (st : AnsiState) × (write_bytes screen (sequence ds cmd) t
          ≡ process_csi_command screen cmd (reading st (min (decimal 0 ds) 65535) t))
  unfolding decimal
  write_sequence [] cmd t d h a b =
      (csi, write_opening (cmd ∷ []) t h ∙ write_command cmd 0 t csi (inl refl) a b)
  write_sequence (c ∷ ds) cmd t d h a b = (
    csi_param,
    write_opening (c ∷ (ds ++ (cmd ∷ []))) t h
        ∙ write_first_digit c ds (cmd ∷ []) t d.0 d.1
        ∙ write_command cmd (min (decimal 0 (c ∷ ds)) 65535) t csi_param (inr refl) a b,
  )

  -- Written between sequences, `ESC [ n A`, `B`, `C` and `D` move the cursor up, down, forward and
  -- back by n places and do nothing else. The n stands in decimal digits; none, or 0, is taken as 1
  -- and a number over 65535 as 65535. The cursor stops at the edges of the screen.
  pub write_bytes-moves :
      (ds : List ℕ) (t : Tty)
      → All IsDigit ds
      → Idle t
      → let n = count (decimal 0 ds) in
        (write_bytes screen (sequence ds 0x41) t ≡ move_to t.x (t.y - n) t)
        × (write_bytes screen (sequence ds 0x42) t ≡ move_to t.x (min (t.y + n) (rows - 1)) t)
        × (write_bytes screen (sequence ds 0x43) t ≡ move_to (min (t.x + n) (cols - 1)) t.y t)
        × (write_bytes screen (sequence ds 0x44) t ≡ move_to (t.x - n) t.y t)
  write_bytes-moves ds t d h =
      let v = min (decimal 0 ds) 65535 in
      let (su, eu) = write_sequence ds 0x41 t d h (omega arith) (omega arith) in
      let (sd, ed) = write_sequence ds 0x42 t d h (omega arith) (omega arith) in
      let (sf, ef) = write_sequence ds 0x43 t d h (omega arith) (omega arith) in
      let (sb, eb) = write_sequence ds 0x44 t d h (omega arith) (omega arith) in
      (
        eu ∙ up_command su v t ∙ idle_at-move_to _ _ t h,
        ed ∙ down_command sd v t ∙ idle_at-move_to _ _ t h,
        ef ∙ forward_command sf v t ∙ idle_at-move_to _ _ t h,
        eb ∙ back_command sb v t ∙ idle_at-move_to _ _ t h,
      )
