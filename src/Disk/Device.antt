-- ===== src/Disk/Device.antt =====
-- A block device as the file systems use it, the trait `BlockDevice` of
-- zenos-kernel/src/disk/block/mod.rs, and programs that may fail over the state of a device.
pub mod Reliable
use zenos.Common.{ℕ, ◌+◌, ◌%◌, Bool, true, false, List, Option, none, some}
use zenos.Vfs.Error.{FileError, read_error, write_error, seek_error}

-- `read` is given the buffer and returns it filled: what stays of the old contents is the device's
-- matter. `none` and `false` stand for any `BlockError`, which the file systems drop.
pub record BlockDevice (S : Type 0) : Type 0 where
  pub seek : ℕ → S → S × Bool
  pub read : List ℕ → S → S × Option (List ℕ)
  pub write : List ℕ → S → S × Bool

-- How a program ends; `out_of_fuel` is a loop that has not ended in the turns it was given.
pub data Outcome (A : Type 0) : Type 0 where
  done : A → Outcome A
  failed : FileError → Outcome A
  out_of_fuel : Outcome A

abbrev pub M : Type 0 → Type 0 → Type 0
M S A = S → S × Outcome A

module _ {S : Type 0} where
  abbrev pub pure : {A : Type 0} → A → M S A
  pure a s = (s, done a)

  abbrev pub fail : {A : Type 0} → FileError → M S A
  fail e s = (s, failed e)

  abbrev pub spin : {A : Type 0} → M S A
  spin s = (s, out_of_fuel)

  abbrev pub then_run : {A B : Type 0} → (A → M S B) → S × Outcome A → S × Outcome B
  then_run f (s, done a) = f a s
  then_run f (s, failed e) = (s, failed e)
  then_run f (s, out_of_fuel) = (s, out_of_fuel)

  infixl 5 ◌>>=◌ ◌>>◌
  abbrev pub ◌>>=◌ : {A B : Type 0} → M S A → (A → M S B) → M S B
  ◌>>=◌ m f s = then_run f (m s)

  abbrev pub ◌>>◌ : {B : Type 0} → M S (Unit {0}) → M S B → M S B
  m >> k = m >>= λ _. k

  -- The result of a device's call, with the error that it is mapped to.
  abbrev pub or_fail : FileError → S × Bool → S × Outcome (Unit {0})
  or_fail e (s, true) = (s, done tt)
  or_fail e (s, false) = (s, failed e)

  abbrev pub filled_or : {A : Type 0} → FileError → S × Option A → S × Outcome A
  filled_or e (s, some buf) = (s, done buf)
  filled_or e (s, none) = (s, failed e)

  -- A seek from the start and a read into the whole buffer.
  unfoldable pub read_at : BlockDevice S → ℕ → List ℕ → M S (List ℕ)
  read_at dev offset buf = do
    (λ s. or_fail seek_error (dev.seek offset s))
    (λ s. filled_or read_error (dev.read buf s))

  unfoldable pub write_at : BlockDevice S → ℕ → List ℕ → M S (Unit {0})
  write_at dev offset buf = do
    (λ s. or_fail seek_error (dev.seek offset s))
    (λ s. or_fail write_error (dev.write buf s))

-- Arithmetic of `u32` and `u64`.
abbrev pub w32 : ℕ → ℕ
w32 x = x % 4294967296

abbrev pub w64 : ℕ → ℕ
w64 x = x % 18446744073709551616
