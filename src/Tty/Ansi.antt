-- ===== src/Tty/Ansi.antt =====
-- The escape sequences of zenos-kernel/src/tty/mod.rs: the parser's states and the CSI commands.
pub mod Bounds
pub mod Sequences
use zenos.Common.{
  ℕ, zero, suc, ◌+◌, ◌-◌, ◌*◌, Bool, true, false, ◌&&◌, ◌||◌, not, List, [], ◌∷◌, ◌++◌, Option,
  none, some, if◌then◌else◌, ◌==◌, ltb, leb, min, max, length, is_empty,
}
use zenos.Tty.Device.{
  Style, default_style, AnsiState, normal, escape, csi, csi_param, Call, draw_char, clear_screen,
  Screen, Tty, call, move_to, write_visible_char,
}
use zenos.Tty.Sgr.{process_sgr}

-- `first().copied().unwrap_or(d)` and `get(1).copied().unwrap_or(d)`.
abbrev first_or : ℕ → List ℕ → ℕ
first_or d [] = d
first_or d (p ∷ ps) = p

abbrev second_or : ℕ → List ℕ → ℕ
second_or d [] = d
second_or d (p ∷ ps) = first_or d ps

-- The blanks of `process_erase_line`, `n` of them from column `x` on.
blanks : ℕ → ℕ → Tty → Tty
unfolding call
blanks x zero t = t
blanks x (suc n) t = blanks (suc x) n (call (draw_char 32 default_style x t.y) t)

reset_ansi_state : Tty → Tty
reset_ansi_state t = record t { ansi_state = normal; ansi_params = []; ansi_current_param = 0 }

module _ (screen : Screen) where
  open screen use {cols, rows}

  process_cursor_position : Tty → Tty
  unfolding move_to
  process_cursor_position t =
      let row = max (first_or 1 t.ansi_params) 1 - 1 in
      let col = max (second_or 1 t.ansi_params) 1 - 1 in
      move_to (min col (cols - 1)) (min row (rows - 1)) t

  process_erase_display : Tty → Tty
  unfolding move_to call
  process_erase_display t =
      let mode = first_or 0 t.ansi_params in
      if mode == 2 || mode == 3 then move_to 0 0 (call clear_screen t) else t

  process_erase_line : Tty → Tty
  unfolding blanks
  process_erase_line t =
      let mode = first_or 0 t.ansi_params in
      if mode == 0
      then blanks t.x (cols - t.x) t
      else if mode == 1
      then blanks 0 (t.x + 1) t
      else if mode == 2
      then blanks 0 cols t
      else t

  -- The count of a move: at least 1.
  abbrev steps : Tty → ℕ
  steps t = max (first_or 1 t.ansi_params) 1

  cursor_up : Tty → Tty
  unfolding move_to
  cursor_up t = move_to t.x (t.y - steps t) t

  cursor_down : Tty → Tty
  unfolding move_to
  cursor_down t = move_to t.x (min (t.y + steps t) (rows - 1)) t

  cursor_forward : Tty → Tty
  unfolding move_to
  cursor_forward t = move_to (min (t.x + steps t) (cols - 1)) t.y t

  cursor_back : Tty → Tty
  unfolding move_to
  cursor_back t = move_to (t.x - steps t) t.y t

  -- The last parameter is pushed unless it is 0 and the only one.
  push_last : Tty → Tty
  push_last t =
      if ltb 0 t.ansi_current_param || not (is_empty t.ansi_params)
      then record t { ansi_params = t.ansi_params ++ (t.ansi_current_param ∷ []) }
      else t

  -- The `match` on the command character.
  command : ℕ → Tty → Tty
  unfolding process_sgr process_cursor_position process_erase_display process_erase_line cursor_up
      cursor_down cursor_forward cursor_back
  command cmd t =
      if cmd == 0x6d
      then record t { style = process_sgr t.ansi_params t.style }
      else if cmd == 0x48 || cmd == 0x66
      then process_cursor_position t
      else if cmd == 0x4a
      then process_erase_display t
      else if cmd == 0x4b
      then process_erase_line t
      else if cmd == 0x41
      then cursor_up t
      else if cmd == 0x42
      then cursor_down t
      else if cmd == 0x43
      then cursor_forward t
      else if cmd == 0x44
      then cursor_back t
      else t

  pub process_csi_command : ℕ → Tty → Tty
  unfolding push_last command reset_ansi_state
  process_csi_command cmd t = reset_ansi_state (command cmd (push_last t))

  -- `saturating_mul(10).saturating_add(…)` on `u16`.
  add_digit : ℕ → ℕ → ℕ
  add_digit n c = min (min (n * 10) 65535 + (c - 48)) 65535

  write_csi : ℕ → Tty → Tty
  unfolding add_digit process_csi_command reset_ansi_state
  write_csi c t =
      if leb 48 c && leb c 57
      then record t {
        ansi_state = csi_param;
        ansi_current_param = add_digit t.ansi_current_param c;
      }
      else if c == 59
      then record t {
        ansi_params = t.ansi_params ++ (t.ansi_current_param ∷ []);
        ansi_current_param = 0;
      }
      else if leb 0x40 c && leb c 0x7e
      then process_csi_command c t
      else reset_ansi_state t

  write_in : AnsiState → ℕ → Tty → Tty
  unfolding write_visible_char reset_ansi_state write_csi
  write_in normal c t =
      if c == 0x1b then record t { ansi_state = escape } else write_visible_char screen c t
  write_in escape c t =
      if c == 0x5b
      then record t { ansi_state = csi; ansi_params = []; ansi_current_param = 0 }
      else write_visible_char screen c (reset_ansi_state t)
  write_in csi c t = write_csi c t
  write_in csi_param c t = write_csi c t

  unfoldable pub write_char_internal : ℕ → Tty → Tty
  unfolding write_in
  write_char_internal c t = write_in t.ansi_state c t

  -- The loop of `write_str` and `tty_write`.
  unfoldable pub write_bytes : List ℕ → Tty → Tty
  unfolding write_char_internal
  write_bytes [] t = t
  write_bytes (c ∷ cs) t = write_bytes cs (write_char_internal c t)

  -- `tty_write` on the global TTY: it fails before `init`, and else writes all bytes.
  unfoldable pub tty_write : List ℕ → Option Tty → Option Tty × Option ℕ
  unfolding write_bytes
  tty_write buf none = (none, none)
  tty_write buf (some t) = (some (write_bytes buf t), some (length buf))
