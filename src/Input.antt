-- ===== src/Input.antt =====
-- Keyboard input: the queue of zenos-kernel/src/hardware/keyboard/mod.rs, `tty_read_nonblocking` of
-- tty/mod.rs and the blocking reads of `Stdin` (process/file_handles.rs) and `read_exact`.
pub mod Editing
pub mod Queue
mod Tests
use zenos.Common.{
  ℕ, zero, suc, ◌+◌, ◌-◌, ◌%◌, Bool, true, false, List, [], ◌∷◌, ◌++◌, Option, none, some,
  if◌then◌else◌, ltb, ◌==◌, length, set,
}

-- A decoded key, as `pc_keyboard` gives it: nothing yet, a character, or a key without one.
pub data Key : Type 0 where
  no_key : Key
  unicode : ℕ → Key
  raw_key : ℕ → Key

-- The scancode decoder is a library's: its state and what a byte makes of it.
pub record Decoder : Type 1 where
  pub State : Type 0
  pub add_byte : ℕ → State → Key × State

-- `STDIN_BLOCKED`, the bytes to be read, and what was echoed to the terminal.
pub record Keyboard : Type 0 where
  pub buffer : List ℕ
  pub stdin_blocked : Bool
  pub echoed : List ℕ

abbrev pub handle_key : Key → Keyboard → Keyboard
handle_key no_key k = k
handle_key (unicode character) k = record k {
  buffer = k.buffer ++ (character % 256 ∷ []);
  stdin_blocked = false;
  echoed = k.echoed ++ (character ∷ []);
}
handle_key (raw_key key) k = k

module _ (D : Decoder) where
  unfoldable pub handle_scancode : ℕ → D.State × Keyboard → D.State × Keyboard
  handle_scancode scancode (s, k) =
      let decoded = D.add_byte scancode s in (decoded.1, handle_key decoded.0 k)

-- `pop`.
abbrev pub pop : List ℕ → Option ℕ × List ℕ
pop [] = (none, [])
pop (b ∷ buffer) = (some b, buffer)

-- `tty_read_nonblocking`, for a buffer of `len` bytes: the bytes read, and those left in the queue.
unfoldable pub tty_read_nonblocking : ℕ → List ℕ → List ℕ × List ℕ
tty_read_nonblocking zero queue = ([], queue)
tty_read_nonblocking (suc len) [] = ([], [])
tty_read_nonblocking (suc len) (b ∷ queue) =
    let rest = tty_read_nonblocking len queue in (b ∷ rest.0, rest.1)

-- Where a read stands: it returned `count` bytes, with the flag it blocks on and the rest of the
-- queue, or it waits with the queue empty.
pub data Reading : Type 0 where
  returned : (count : ℕ) (buffer : List ℕ) (flag : Bool) (queue : List ℕ) → Reading
  waiting : (count : ℕ) (buffer : List ℕ) → Reading

abbrev pub newline : ℕ
newline = 10

abbrev pub carriage_return : ℕ
carriage_return = 13

abbrev pub backspace : ℕ
backspace = 8

-- What a byte that is no newline does to the buffer and the count.
abbrev pub edit : ℕ → List ℕ → ℕ → List ℕ × ℕ
edit byte buffer count =
    if byte == backspace then (buffer, count - 1) else (set buffer count byte, count + 1)

-- `\r` is ignored by `read_exact` alone.
abbrev pub edit_exact : ℕ → List ℕ → ℕ → List ℕ × ℕ
edit_exact byte buffer count =
    if byte == carriage_return then (buffer, count) else edit byte buffer count

-- `Stdin::read` over the bytes in the queue, `count` bytes into its buffer; each turn of the loop
-- takes one. With no byte the process blocks, and the loop goes on with what comes.
unfoldable pub stdin_read : List ℕ → List ℕ → ℕ → Reading
stdin_read [] buffer count =
    if ltb count (length buffer) then waiting count buffer else returned count buffer false []
stdin_read (byte ∷ queue) buffer count =
    let edited = edit byte buffer count in
    let rest = stdin_read queue edited.0 edited.1 in
    if ltb count (length buffer)
    then (if byte == newline
        then returned (count + 1) (set buffer count byte) false queue
        else rest)
    else returned count buffer false (byte ∷ queue)

-- `read_exact`. Its flag is true unless a newline ended the read.
unfoldable pub read_exact : Bool → List ℕ → List ℕ → ℕ → Reading
read_exact processing [] buffer count =
    if ltb count (length buffer) then waiting count buffer else returned count buffer processing []
read_exact processing (byte ∷ queue) buffer count =
    let edited = edit_exact byte buffer count in
    let rest = read_exact true queue edited.0 edited.1 in
    if ltb count (length buffer)
    then (if byte == newline then returned count buffer false queue else rest)
    else returned count buffer processing (byte ∷ queue)
