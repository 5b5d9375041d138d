-- ===== src/Tty/Sgr.antt =====
-- `process_sgr` of zenos-kernel/src/tty/mod.rs: the parameters of `ESC [ … m` set the style.
use zenos.Common.{
  ℕ, ◌+◌, ◌-◌, ◌%◌, Bool, true, false, ◌&&◌, ◌||◌, List, [], ◌∷◌, none, some, if◌then◌else◌, ◌==◌,
  leb,
}
use zenos.Tty.Color.{color_256}
use zenos.Tty.Device.{Style, default_style}

abbrev between : ℕ → ℕ → ℕ → Bool
between low high n = leb low n && leb n high

-- The parameters that choose a colour of the first sixteen, or take one back.
sgr_color : ℕ → Style → Style
unfolding color_256
sgr_color n s =
    if between 30 37 n
    then record s { fg_color = some (color_256 (n - 30)) }
    else if between 40 47 n
    then record s { bg_color = some (color_256 (n - 40)) }
    else if between 90 97 n
    then record s { fg_color = some (color_256 (n - 90 + 8)) }
    else if between 100 107 n
    then record s { bg_color = some (color_256 (n - 100 + 8)) }
    else if n == 39
    then record s { fg_color = none }
    else if n == 49
    then record s { bg_color = none }
    else s

-- A parameter by itself; 38 and 48 without the rest of their sequence are dropped.
sgr_one : ℕ → Style → Style
unfolding sgr_color
sgr_one n s =
    if n == 0
    then default_style
    else if n == 1
    then record s { bold = true }
    else if n == 3
    then record s { ital = true }
    else if n == 4
    then record s { underline = true }
    else if n == 9
    then record s { strikethrough = true }
    else if n == 22
    then record s { bold = false }
    else if n == 23
    then record s { ital = false }
    else if n == 24
    then record s { underline = false }
    else if n == 29
    then record s { strikethrough = false }
    else sgr_color n s

-- The sequences `38;5;n` and `48;5;n`.
sgr_extended : ℕ → ℕ → Style → Style
unfolding color_256
sgr_extended p n s =
    if p == 38
    then record s { fg_color = some (color_256 (n % 256)) }
    else record s { bg_color = some (color_256 (n % 256)) }

-- The loop, on the parameters that are left.
sgr_loop : Style → List ℕ → Style
unfolding sgr_one sgr_extended
sgr_loop s [] = s
sgr_loop s (p ∷ []) = sgr_one p s
sgr_loop s (p ∷ q ∷ []) = sgr_one q (sgr_one p s)
sgr_loop s (p ∷ q ∷ n ∷ ps) = elim ((p == 38 || p == 48) && q == 5) [
  | true ↦ sgr_loop (sgr_extended p n s) ps
  | false ↦ sgr_loop (sgr_one p s) (q ∷ n ∷ ps)
]

unfoldable pub process_sgr : List ℕ → Style → Style
unfolding sgr_loop
process_sgr [] s = sgr_loop s (0 ∷ [])
process_sgr (p ∷ ps) s = sgr_loop s (p ∷ ps)
