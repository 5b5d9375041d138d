-- ===== src/Disk/Gpt/Reading.antt =====
-- The parts of zenos-kernel/src/disk/block/mod.rs that read the partition table from a device:
-- `read_exact`, `get_header` and `get_partition_entries`.
use zenos.Common.{
  ℕ, zero, suc, ◌+◌, ◌-◌, ◌*◌, ◌≤◌, ◌≡◌, Bool-cases, inl, inr, arith, List, [], ◌++◌, Option, none,
  some, if◌then◌else◌, ltb, ◌==◌, length, ◌⊎◌, length-append,
}
use zenos.Disk.Device.{w64}
use zenos.Disk.Gpt.{GptHeader, GptPartitionEntry, deserialize_header, entries_loop}

pub data BlockError : Type 0 where
  read_error write_error seek_error unsupported_operation device_not_found invalid_gpt : BlockError

pub data Ran (A : Type 0) : Type 0 where
  done : A → Ran A
  failed : BlockError → Ran A
  out_of_fuel : Ran A

abbrev pub Io : Type 0 → Type 0 → Type 0
Io S A = S → S × Ran A

-- A device with a cursor. `read` is told how many bytes are wanted and gives those that it delivers,
-- none at the end of the disk.
pub record CursorDevice (S : Type 0) : Type 0 where
  pub block_size : ℕ
  pub seek : ℕ → S → S × (BlockError ⊎ ℕ)
  pub read : ℕ → S → S × (BlockError ⊎ List ℕ)

module _ {S : Type 0} where
  abbrev pure : {A : Type 0} → A → Io S A
  pure a s = (s, done a)

  abbrev fail : {A : Type 0} → BlockError → Io S A
  fail e s = (s, failed e)

  abbrev spin : {A : Type 0} → Io S A
  spin s = (s, out_of_fuel)

  abbrev then_run : {A B : Type 0} → (A → Io S B) → S × Ran A → S × Ran B
  then_run f (s, done a) = f a s
  then_run f (s, failed e) = (s, failed e)
  then_run f (s, out_of_fuel) = (s, out_of_fuel)

  infixl 5 ◌>>=◌
  abbrev ◌>>=◌ : {A B : Type 0} → Io S A → (A → Io S B) → Io S B
  ◌>>=◌ m f s = then_run f (m s)

  abbrev answer : {A : Type 0} → S × (BlockError ⊎ A) → S × Ran A
  answer (s, inl e) = (s, failed e)
  answer (s, inr a) = (s, done a)

  abbrev finish : ℕ → List ℕ → Io S (List ℕ)
  finish n buf = if length buf == n then pure buf else fail read_error

  module _ (dev : CursorDevice S) where
    -- `buf` is what has been read; each turn that goes on reads a byte at least.
    unfoldable pub read_loop : ℕ → ℕ → List ℕ → Io S (List ℕ)
    read_loop zero n buf = if ltb (length buf) n then spin else finish n buf
    read_loop (suc fuel) n buf =
        if ltb (length buf) n
        then (do
          bytes ← (λ s. answer (dev.read (n - length buf) s))
          if length bytes == 0 then fail read_error else read_loop fuel n (buf ++ bytes))
        else finish n buf

    unfoldable pub read_exact : ℕ → Io S (List ℕ)
    unfolding read_loop
    read_exact n = read_loop n n []

    abbrev valid_header : Option GptHeader → Io S GptHeader
    valid_header none = fail invalid_gpt
    valid_header (some h) = pure h

    unfoldable pub get_header : Io S GptHeader
    unfolding read_exact deserialize_header
    get_header = do
      position ← (λ s. answer (dev.seek dev.block_size s))
      buf ← read_exact dev.block_size
      valid_header (deserialize_header buf)

    -- The failures are those for which the code returns `None`.
    unfoldable pub get_partition_entries : GptHeader → Io S (List GptPartitionEntry)
    unfolding read_exact entries_loop
    get_partition_entries h = do
      position ← (λ s. answer (dev.seek (w64 (h.partition_entry_lba * dev.block_size)) s))
      buf ← read_exact (h.num_partition_entries * h.size_of_partition_entry)
      pure (entries_loop h.size_of_partition_entry h.num_partition_entries buf)

-- The end of a read of `n` bytes.
pub data Ended (n : ℕ) : Ran (List ℕ) → Type 0 where
  full : (buf : List ℕ) → length buf ≡ n → Ended n (done buf)
  stopped : (e : BlockError) → Ended n (failed e)

module _ {S : Type 0} (dev : CursorDevice S) where
  finish-Ended : (n : ℕ) (buf : List ℕ) (s : S) → Ended n (finish n buf s).1
  finish-Ended n buf s = elim (Bool-cases (length buf == n)) [
    | inl e ↦ rw e (full buf (ground arith))
    | inr e ↦ rw e (stopped read_error)
  ]

  answer-Ended :
      (n : ℕ) (f : List ℕ → Io S (List ℕ)) (r : S × (BlockError ⊎ List ℕ))
      → ((bytes : List ℕ) (s : S) → Ended n (f bytes s).1)
      → Ended n (then_run f (answer r)).1
  answer-Ended n f (s, inl e) h = stopped e
  answer-Ended n f (s, inr bytes) h = h bytes s

  read_loop-Ended :
      (fuel n : ℕ) (buf : List ℕ) (s : S)
      → n ≤ length buf + fuel
      → Ended n (read_loop dev fuel n buf s).1
  unfolding read_loop
  read_loop-Ended zero n buf s h = elim (Bool-cases (ltb (length buf) n)) [
    | inl e ↦ absurd (ground arith)
    | inr e ↦ rw e (finish-Ended n buf s)
  ]
  read_loop-Ended (suc fuel) n buf s h = elim (Bool-cases (ltb (length buf) n)) [
    | inl e ↦ rw e (
        answer-Ended n
          (λ bytes.
            if length bytes == 0 then fail read_error else read_loop dev fuel n (buf ++ bytes))
          (dev.read (n - length buf) s)
          (λ bytes s'. elim (Bool-cases (length bytes == 0)) [
            | inl z ↦ rw z (stopped read_error)
            | inr z ↦ rw z (
                read_loop-Ended fuel n (buf ++ bytes) s'
                  (rw (length-append buf bytes) (ground arith)))
          ]))
    | inr e ↦ rw e (finish-Ended n buf s)
  ]

  -- A read of `n` bytes ends on every device, with `n` bytes or an error.
  pub read_exact-Ended : (n : ℕ) (s : S) → Ended n (read_exact dev n s).1
  unfolding read_exact
  read_exact-Ended n s = read_loop-Ended n n [] s (omega arith)
