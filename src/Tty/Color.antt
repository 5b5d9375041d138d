-- ===== src/Tty/Color.antt =====
-- `color_256` of zenos-kernel/src/tty/mod.rs: the palette of 256 colours.
use zenos.Common.{ℕ, ◌+◌, ◌-◌, ◌*◌, ◌/◌, ◌%◌, ◌<◌, ◌≤◌, arith, if◌then◌else◌, ◌==◌, ltb}

abbrev pub Rgb : Type 0
Rgb = ℕ × ℕ × ℕ

-- The first eight, the bright eight, and both.
basic_color : ℕ → Rgb
basic_color n =
    if n == 0
    then (0, 0, 0)
    else if n == 1
    then (128, 0, 0)
    else if n == 2
    then (0, 128, 0)
    else if n == 3
    then (128, 128, 0)
    else if n == 4
    then (0, 0, 128)
    else if n == 5
    then (128, 0, 128)
    else if n == 6
    then (0, 128, 128)
    else (192, 192, 192)

bright_color : ℕ → Rgb
bright_color n =
    if n == 8
    then (128, 128, 128)
    else if n == 9
    then (255, 0, 0)
    else if n == 10
    then (0, 255, 0)
    else if n == 11
    then (255, 255, 0)
    else if n == 12
    then (0, 0, 255)
    else if n == 13
    then (255, 0, 255)
    else if n == 14
    then (0, 255, 255)
    else (255, 255, 255)

-- One channel of the cube: the sum and the product are those of `u8`, which may not overflow.
to_val : ℕ → ℕ
to_val v = if v == 0 then 0 else 55 + v * 40

cube_color : ℕ → Rgb
unfolding to_val
cube_color n = (to_val ((n / 36) % 6), to_val ((n / 6) % 6), to_val (n % 6))

gray_color : ℕ → Rgb
gray_color n = let gray = 8 + n * 10 in (gray, gray, gray)

unfoldable pub color_256 : ℕ → Rgb
unfolding basic_color bright_color cube_color gray_color
color_256 n =
    if ltb n 8
    then basic_color n
    else if ltb n 16
    then bright_color n
    else if ltb n 232
    then cube_color (n - 16)
    else gray_color (n - 232)

abbrev pub Fits : Rgb → Type 0
Fits (r, g, b) = (r ≤ 255) × (g ≤ 255) × (b ≤ 255)

basic_color-Fits : (n : ℕ) → Fits (basic_color n)
unfolding basic_color
basic_color-Fits n = ground arith

bright_color-Fits : (n : ℕ) → Fits (bright_color n)
unfolding bright_color
bright_color-Fits n = ground arith

to_val-fits : (v : ℕ) → v < 6 → to_val v ≤ 255
unfolding to_val
to_val-fits v h = ground arith

cube_color-Fits : (n : ℕ) → Fits (cube_color n)
unfolding cube_color
cube_color-Fits n = (
  to_val-fits ((n / 36) % 6) (omega arith),
  to_val-fits ((n / 6) % 6) (omega arith),
  to_val-fits (n % 6) (omega arith),
)

gray_color-Fits : (n : ℕ) → n < 24 → Fits (gray_color n)
unfolding gray_color
gray_color-Fits n h = (omega arith, omega arith, omega arith)

-- No channel of a palette colour overflows its byte: for every byte the three channels are at most 255.
pub color_256-Fits : (n : ℕ) → n < 256 → Fits (color_256 n)
unfolding color_256
color_256-Fits n h = ground (
  arith,
  basic_color-Fits n,
  bright_color-Fits n,
  cube_color-Fits (n - 16),
  gray_color-Fits (n - 232),
)
