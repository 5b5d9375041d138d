-- ===== src/Tty/Tests.antt =====
-- The theorems on the terminal, applied to a screen of 80 columns and 25 rows.
use zenos.Common.{◌≡◌, refl, arith, [], ◌∷◌}
use zenos.Tty.Device.{Screen, Tty, new, move_to}
use zenos.Tty.Ansi.{write_bytes}
use zenos.Tty.Ansi.Bounds.{Inside, write_bytes-Inside}
use zenos.Tty.Ansi.Sequences.{Idle, sequence, decimal, write_bytes-moves}

abbrev text_mode : Screen
text_mode = record { cols = 80; rows = 25 }

abbrev middle : Tty
middle = record new { x = 80; y = 24 }

middle-Inside : Inside text_mode middle
middle-Inside = record {
  column = omega arith;
  row = omega arith;
  drawn = tt;
  params = tt;
  current = omega arith;
}

middle-Idle : Idle middle
middle-Idle = record { is_normal = refl; no_params = refl; no_current = refl }

-- A letter at the right edge, a tab, and an erased line.
write_bytes-Inside_example :
    Inside text_mode (write_bytes text_mode (97 ∷ 9 ∷ 27 ∷ 91 ∷ 50 ∷ 75 ∷ []) middle)
write_bytes-Inside_example =
    write_bytes-Inside text_mode (97 ∷ 9 ∷ 27 ∷ 91 ∷ 50 ∷ 75 ∷ []) middle (omega arith)
      middle-Inside

write_bytes-moves_example :
    (write_bytes text_mode (sequence text_mode (49 ∷ 50 ∷ []) 0x41) middle ≡ move_to 80 12 middle)
    × (write_bytes text_mode (sequence text_mode (49 ∷ 50 ∷ []) 0x42) middle ≡ move_to 80 24 middle)
    × (write_bytes text_mode (sequence text_mode (49 ∷ 50 ∷ []) 0x43) middle ≡ move_to 79 24 middle)
    × (write_bytes text_mode (sequence text_mode (49 ∷ 50 ∷ []) 0x44) middle ≡ move_to 68 24 middle)
unfolding decimal
write_bytes-moves_example =
    write_bytes-moves text_mode (49 ∷ 50 ∷ []) middle
      ((omega arith, omega arith), ((omega arith, omega arith), tt)) middle-Idle
