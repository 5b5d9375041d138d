-- ===== src/Tty/Ansi/Bounds.antt =====
-- Where the terminal of zenos-kernel/src/tty/mod.rs draws, and where its cursor stands.
use zenos.Common.{
  ℕ, zero, suc, ◌+◌, ◌-◌, ◌*◌, ◌/◌, ◌<◌, ◌≤◌, ◌≡◌, arith, true, false, not, ◌||◌, is_empty, List,
  [], ◌∷◌, ◌++◌, ◌==◌, ltb, leb, All, min, All-append, if_cases,
}
use zenos.Tty.Device.{
  Style, AnsiState, normal, escape, csi, csi_param, Call, draw_char, clear_screen, scroll_up,
  draw_cursor, Screen, Tty, call, move_to, show_cursor, hide_cursor, next_line, newline, backspace,
  tab, put, printable, visible, write_visible_char,
}
use zenos.Tty.Sgr.{process_sgr}
use zenos.Tty.Ansi.{
  blanks, first_or, reset_ansi_state, process_cursor_position, process_erase_display,
  process_erase_line, cursor_up, cursor_down, cursor_forward, cursor_back, push_last, command,
  process_csi_command, add_digit, write_csi, write_in, write_char_internal, write_bytes,
}

module _ (screen : Screen) where
  open screen use {cols, rows}

  -- A call draws in a row of the screen, and in one of its columns or just behind them.
  abbrev pub Drawn : Call → Type 0
  Drawn (draw_char c s x y) = (x ≤ cols) × (y < rows)
  Drawn clear_screen = Unit
  Drawn (scroll_up n) = Unit
  Drawn (draw_cursor x y visible) = (x ≤ cols) × (y < rows)

  -- The cursor stands in a row of the screen, in one of its columns or just behind them; all calls
  -- drew there; and the parameters are numbers of 16 bits.
  pub record Inside (t : Tty) : Type 0 where
    pub column : t.x ≤ cols
    pub row : t.y < rows
    pub drawn : All Drawn t.calls
    pub params : All (λ p. p ≤ 65535) t.ansi_params
    pub current : t.ansi_current_param ≤ 65535

  call-Inside : (c : Call) (t : Tty) → Drawn c → Inside t → Inside (call c t)
  unfolding call
  call-Inside c t d h = record {
    column = h.column;
    row = h.row;
    drawn = (d, h.drawn);
    params = h.params;
    current = h.current;
  }

  move_to-Inside : (x y : ℕ) (t : Tty) → x ≤ cols → y < rows → Inside t → Inside (move_to x y t)
  unfolding move_to
  move_to-Inside x y t a b h = record {
    column = a;
    row = b;
    drawn = h.drawn;
    params = h.params;
    current = h.current;
  }

  hide_cursor-Inside : (t : Tty) → Inside t → Inside (hide_cursor t)
  unfolding hide_cursor
  hide_cursor-Inside t h = call-Inside (draw_cursor t.x t.y false) t (h.column, h.row) h

  show_cursor-Inside : (t : Tty) → Inside t → Inside (show_cursor t)
  unfolding show_cursor
  show_cursor-Inside t h =
      if_cases Inside t.cursor_visible
        (λ _. call-Inside (draw_cursor t.x t.y true) t (h.column, h.row) h) (λ _. h)

  next_line-Inside : (t : Tty) → Inside t → Inside (next_line screen t)
  unfolding next_line
  next_line-Inside t h =
      if_cases Inside (leb rows (t.y + 1))
        (λ _.
          move_to-Inside 0 (rows - 1) (call (scroll_up 1) t) (omega arith) (omega (arith, h.row))
            (call-Inside (scroll_up 1) t tt h))
        (λ e. move_to-Inside 0 (t.y + 1) t (omega arith) (ground arith) h)

  newline-Inside : (t : Tty) → Inside t → Inside (newline screen t)
  unfolding newline
  newline-Inside t h =
      show_cursor-Inside (next_line screen (hide_cursor t))
        (next_line-Inside (hide_cursor t) (hide_cursor-Inside t h))

  backspace-Inside : (t : Tty) → Inside t → Inside (backspace screen t)
  unfolding backspace
  backspace-Inside t h =
      if_cases Inside (ltb 0 t.x)
        (λ _.
          move_to-Inside (t.x - 1) t.y (call (draw_char 32 t.style (t.x - 1) t.y) t)
            (omega (arith, h.column)) h.row
            (call-Inside (draw_char 32 t.style (t.x - 1) t.y) t (omega (arith, h.column), h.row) h))
        (λ _. h)

  put-Inside : (c : ℕ) (t : Tty) → t.x < cols → Inside t → Inside (put screen c t)
  unfolding put
  put-Inside c t lt h =
      move_to-Inside (t.x + 1) t.y (call (draw_char c t.style t.x t.y) t) (omega arith) h.row
        (call-Inside (draw_char c t.style t.x t.y) t (h.column, h.row) h)

  next_line-x : (t : Tty) → (next_line screen t).x ≡ 0
  unfolding next_line call move_to
  next_line-x t = ground arith

  printable-Inside : (c : ℕ) (t : Tty) → 0 < cols → Inside t → Inside (printable screen c t)
  unfolding printable
  printable-Inside c t p h =
      if_cases Inside (leb cols t.x)
        (λ _.
          put-Inside c (next_line screen t) (omega (arith, next_line-x t)) (next_line-Inside t h))
        (λ e. put-Inside c t (ground arith) h)

  visible-Inside : (c : ℕ) (t : Tty) → 0 < cols → Inside t → Inside (visible screen c t)
  unfolding visible tab
  visible-Inside c t p h = ground (
    arith,
    newline-Inside t h,
    move_to-Inside 0 t.y t (omega arith) h.row h,
    backspace-Inside t h,
    move_to-Inside (min ((t.x / 8 + 1) * 8) (cols - 1)) t.y t (omega arith) h.row h,
    printable-Inside c t p h,
    h,
  )

  write_visible_char-Inside :
      (c : ℕ) (t : Tty) → 0 < cols → Inside t → Inside (write_visible_char screen c t)
  unfolding write_visible_char
  write_visible_char-Inside c t p h =
      show_cursor-Inside (visible screen c (hide_cursor t))
        (visible-Inside c (hide_cursor t) p (hide_cursor-Inside t h))

  blanks-Inside : (x n : ℕ) (t : Tty) → x + n ≤ suc cols → Inside t → Inside (blanks x n t)
  unfolding blanks
  blanks-Inside x zero t b h = h
  blanks-Inside x (suc n) t b h =
      blanks-Inside (suc x) n (call (draw_char 32 _ x t.y) t) (omega arith)
        (call-Inside (draw_char 32 _ x t.y) t (omega arith, h.row) h)

  reset-Inside : (t : Tty) → Inside t → Inside (reset_ansi_state t)
  unfolding reset_ansi_state
  reset-Inside t h = record {
    column = h.column;
    row = h.row;
    drawn = h.drawn;
    params = tt;
    current = omega arith;
  }

  erase_display-Inside : (t : Tty) → Inside t → Inside (process_erase_display screen t)
  unfolding process_erase_display
  erase_display-Inside t h =
      let mode = first_or 0 t.ansi_params in
      if_cases Inside (mode == 2 || mode == 3)
        (λ _.
          move_to-Inside 0 0 (call clear_screen t) (omega arith) (omega (arith, h.row))
            (call-Inside clear_screen t tt h))
        (λ _. h)

  erase_line-Inside : (t : Tty) → Inside t → Inside (process_erase_line screen t)
  unfolding process_erase_line
  erase_line-Inside t h = ground (
    arith,
    blanks-Inside t.x (cols - t.x) t (omega (arith, h.column)) h,
    blanks-Inside 0 (t.x + 1) t (omega (arith, h.column)) h,
    blanks-Inside 0 cols t (omega arith) h,
    h,
  )

  style-Inside : (s : Style) (t : Tty) → Inside t → Inside (record t { style = s })
  style-Inside s t h = record {
    column = h.column;
    row = h.row;
    drawn = h.drawn;
    params = h.params;
    current = h.current;
  }

  position-Inside : (t : Tty) → Inside t → Inside (process_cursor_position screen t)
  unfolding process_cursor_position
  position-Inside t h = move_to-Inside _ _ t (omega (arith, h.column)) (omega (arith, h.row)) h

  up-Inside : (t : Tty) → Inside t → Inside (cursor_up screen t)
  unfolding cursor_up
  up-Inside t h = move_to-Inside t.x _ t h.column (omega (arith, h.row)) h

  down-Inside : (t : Tty) → Inside t → Inside (cursor_down screen t)
  unfolding cursor_down
  down-Inside t h = move_to-Inside t.x _ t h.column (omega (arith, h.row)) h

  forward-Inside : (t : Tty) → Inside t → Inside (cursor_forward screen t)
  unfolding cursor_forward
  forward-Inside t h = move_to-Inside _ t.y t (omega (arith, h.column)) h.row h

  back-Inside : (t : Tty) → Inside t → Inside (cursor_back screen t)
  unfolding cursor_back
  back-Inside t h = move_to-Inside _ t.y t (omega (arith, h.column)) h.row h

  command-Inside : (cmd : ℕ) (t : Tty) → Inside t → Inside (command screen cmd t)
  unfolding command
  command-Inside cmd t h = ground (
    arith,
    style-Inside (process_sgr t.ansi_params t.style) t h,
    position-Inside t h,
    erase_display-Inside t h,
    erase_line-Inside t h,
    up-Inside t h,
    down-Inside t h,
    forward-Inside t h,
    back-Inside t h,
    h,
  )

  params-Inside :
      (st : AnsiState) (ps : List ℕ) (n : ℕ) (t : Tty)
      → All (λ p. p ≤ 65535) ps
      → n ≤ 65535
      → Inside t
      → Inside (record t { ansi_state = st; ansi_params = ps; ansi_current_param = n })
  params-Inside st ps n t a b h = record {
    column = h.column;
    row = h.row;
    drawn = h.drawn;
    params = a;
    current = b;
  }

  pushed :
      (t : Tty) → Inside t → All (λ p. p ≤ 65535) (t.ansi_params ++ (t.ansi_current_param ∷ []))
  pushed t h = All-append _ t.ansi_params (t.ansi_current_param ∷ []) h.params (h.current, tt)

  push_last-Inside : (t : Tty) → Inside t → Inside (push_last screen t)
  unfolding push_last
  push_last-Inside t h =
      if_cases Inside (ltb 0 t.ansi_current_param || not (is_empty t.ansi_params))
        (λ _. params-Inside t.ansi_state _ t.ansi_current_param t (pushed t h) h.current h) (λ _. h)

  write_csi-Inside : (c : ℕ) (t : Tty) → Inside t → Inside (write_csi screen c t)
  unfolding write_csi add_digit process_csi_command
  write_csi-Inside c t h = ground (
    arith,
    params-Inside csi_param t.ansi_params (add_digit screen t.ansi_current_param c) t h.params
        (omega arith) h,
    params-Inside t.ansi_state (t.ansi_params ++ (t.ansi_current_param ∷ [])) 0 t (pushed t h)
        (omega arith) h,
    reset-Inside (command screen c (push_last screen t))
        (command-Inside c (push_last screen t) (push_last-Inside t h)),
    reset-Inside t h,
  )

  write_in-Inside :
      (st : AnsiState) (c : ℕ) (t : Tty) → 0 < cols → Inside t → Inside (write_in screen st c t)
  unfolding write_in
  write_in-Inside normal c t p h =
      if_cases Inside (c == 0x1b)
        (λ _. params-Inside escape t.ansi_params t.ansi_current_param t h.params h.current h)
        (λ _. write_visible_char-Inside c t p h)
  write_in-Inside escape c t p h =
      if_cases Inside (c == 0x5b) (λ _. params-Inside csi [] 0 t tt (omega arith) h)
        (λ _. write_visible_char-Inside c (reset_ansi_state t) p (reset-Inside t h))
  write_in-Inside csi c t p h = write_csi-Inside c t h
  write_in-Inside csi_param c t p h = write_csi-Inside c t h

  -- Whatever bytes are written, escape sequences included, to a screen that has a column: the cursor
  -- stays in a row of the screen and in one of its columns or just behind them, everything is drawn
  -- there, and the parameters stay numbers of 16 bits, if all this held before.
  pub write_bytes-Inside :
      (cs : List ℕ) (t : Tty) → 0 < cols → Inside t → Inside (write_bytes screen cs t)
  unfolding write_bytes write_char_internal
  write_bytes-Inside [] t p h = h
  write_bytes-Inside (c ∷ cs) t p h =
      write_bytes-Inside cs (write_char_internal screen c t) p
        (write_in-Inside t.ansi_state c t p h)
