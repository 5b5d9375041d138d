-- ===== src/Input/Tests.antt =====
-- The theorems on keyboard input applied to a line with a backspace.
use zenos.Common.{ℕ, refl, List, [], ◌∷◌, ◌++◌, length, arith}
use zenos.Input.{newline, backspace, stdin_read}
use zenos.Input.Editing.{Holds, edit_line, stdin_read-Holds}

-- "ax", a backspace and "b".
abbrev typed : List ℕ
typed = 97 ∷ 120 ∷ backspace ∷ 98 ∷ []

abbrev empty : List ℕ
empty = 0 ∷ 0 ∷ 0 ∷ 0 ∷ []

stdin_read-Holds_example :
    Holds
      (edit_line (length empty) [] (typed ++ (newline ∷ [])))
      (stdin_read (typed ++ (newline ∷ [])) empty 0)
stdin_read-Holds_example =
    stdin_read-Holds (typed ++ (newline ∷ [])) [] empty 0 (refl, (refl, omega arith))
