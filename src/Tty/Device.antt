-- ===== src/Tty/Device.antt =====
-- `TTYDevice` of zenos-kernel/src/tty/mod.rs: its state, and what it draws. The display is the list of
-- the calls made to it, last first, since all their results are dropped; its size does not change.
use zenos.Common.{
  ℕ, ◌+◌, ◌-◌, ◌*◌, ◌/◌, Bool, true, false, not, List, [], ◌∷◌, Option, none, if◌then◌else◌, ◌==◌,
  ltb, leb, min,
}
use zenos.Tty.Color.{Rgb}

pub record Style : Type 0 where
  pub bold : Bool
  pub underline : Bool
  pub strikethrough : Bool
  pub ital : Bool
  pub fg_color : Option Rgb
  pub bg_color : Option Rgb

-- `Style::default()`.
abbrev pub default_style : Style
default_style = record {
  bold = false;
  underline = false;
  strikethrough = false;
  ital = false;
  fg_color = none;
  bg_color = none;
}

pub data AnsiState : Type 0 where
  normal escape csi csi_param : AnsiState

-- The calls of `TtyDisplayBackend` that draw.
pub data Call : Type 0 where
  draw_char : ℕ → Style → ℕ → ℕ → Call
  clear_screen : Call
  scroll_up : ℕ → Call
  draw_cursor : ℕ → ℕ → Bool → Call

-- `cols()` and `rows()`.
pub record Screen : Type 0 where
  pub cols : ℕ
  pub rows : ℕ

pub record Tty : Type 0 where
  pub calls : List Call
  pub x : ℕ
  pub y : ℕ
  pub cursor_visible : Bool
  pub style : Style
  pub ansi_state : AnsiState
  pub ansi_params : List ℕ
  pub ansi_current_param : ℕ

-- `TTYDevice::new`.
abbrev pub new : Tty
new = record {
  calls = [];
  x = 0;
  y = 0;
  cursor_visible = true;
  style = default_style;
  ansi_state = normal;
  ansi_params = [];
  ansi_current_param = 0;
}

unfoldable pub call : Call → Tty → Tty
call c t = record t { calls = c ∷ t.calls }

unfoldable pub move_to : ℕ → ℕ → Tty → Tty
move_to x y t = record t { x = x; y = y }

-- The method `update_cursor`: it blinks.
unfoldable pub update_cursor : Tty → Tty
unfolding call
update_cursor t =
    let visible = t.cursor_visible in
    call (draw_cursor t.x t.y visible) (record t { cursor_visible = not visible })

unfoldable pub show_cursor : Tty → Tty
unfolding call
show_cursor t = if t.cursor_visible then call (draw_cursor t.x t.y true) t else t

unfoldable pub hide_cursor : Tty → Tty
unfolding call
hide_cursor t = call (draw_cursor t.x t.y false) t

module _ (screen : Screen) where
  open screen use {cols, rows}

  -- The line below, or the last one after a scroll.
  unfoldable pub next_line : Tty → Tty
  unfolding call move_to
  next_line t =
      if leb rows (t.y + 1)
      then move_to 0 (rows - 1) (call (scroll_up 1) t)
      else move_to 0 (t.y + 1) t

  unfoldable pub newline : Tty → Tty
  unfolding hide_cursor show_cursor next_line
  newline t = show_cursor (next_line (hide_cursor t))

  unfoldable pub backspace : Tty → Tty
  unfolding call move_to
  backspace t =
      if ltb 0 t.x then move_to (t.x - 1) t.y (call (draw_char 32 t.style (t.x - 1) t.y) t) else t

  unfoldable pub tab : Tty → Tty
  unfolding move_to
  tab t = move_to (min ((t.x / 8 + 1) * 8) (cols - 1)) t.y t

  -- Draws at the cursor and moves it on.
  unfoldable pub put : ℕ → Tty → Tty
  unfolding call move_to
  put c t = move_to (t.x + 1) t.y (call (draw_char c t.style t.x t.y) t)

  unfoldable pub printable : ℕ → Tty → Tty
  unfolding put next_line
  printable c t = if leb cols t.x then put c (next_line t) else put c t

  -- The `match` of `write_visible_char`.
  unfoldable pub visible : ℕ → Tty → Tty
  unfolding newline move_to backspace tab printable
  visible c t =
      if c == 10
      then newline t
      else if c == 13
      then move_to 0 t.y t
      else if c == 8
      then backspace t
      else if c == 0
      then t
      else if c == 9
      then tab t
      else printable c t

  unfoldable pub write_visible_char : ℕ → Tty → Tty
  unfolding hide_cursor show_cursor visible
  write_visible_char c t = show_cursor (visible c (hide_cursor t))
