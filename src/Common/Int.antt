-- ===== src/Common/Int.antt =====
-- Signed integers over the native numbers, and the unsigned 64-bit arithmetic of the kernel.
use Prim.Native.Nat.{ℕ, suc, ◌+◌, ◌-◌, ◌^◌, min, compare, Ordering}

-- `negsuc n` is -(n + 1).
pub data ℤ : Type 0 where
  pos : ℕ → ℤ
  negsuc : ℕ → ℤ

abbrev pub u64_size : ℕ
u64_size = 2 ^ 64

-- `u64::MAX`.
abbrev pub u64_max : ℕ
u64_max = 0xffff_ffff_ffff_ffff

abbrev pub saturating_add : ℕ → ℕ → ℕ
saturating_add a b = min (a + b) u64_max

-- `x as u64` for an `i64`: two's complement.
abbrev pub as_u64 : ℤ → ℕ
as_u64 (pos n) = n
as_u64 (negsuc n) = u64_size - suc n

-- `x as i64` for a `u64`.
abbrev pub as_i64 : ℕ → ℤ
as_i64 n = elim (compare n (2 ^ 63)) [ Ordering.lt ↦ pos n | _ ↦ negsuc (u64_max - n) ]

-- `(-errno) as u64`, which a system call returns for an error.
abbrev pub errno : ℕ → ℕ
errno e = u64_size - e
