-- ===== src/Files/UserMemory.antt =====
-- Copies between the kernel and a process's memory: `user_range_is_mapped`, `copy_from_user` and
-- `copy_to_user` of zenos-kernel/src/syscall/mod.rs, for bytes. `mapped` tells for the address of a page
-- whether `virt_to_phys` finds it in the current page tables.
pub mod Laws
use zenos.Common.{
  ℕ, zero, suc, ◌+◌, ◌-◌, ◌*◌, ◌/◌, ◌^◌, Bool, true, false, ◌&&◌, ◌||◌, not, List, [], ◌∷◌, Option,
  none, some, if◌then◌else◌, ltb, leb, ◌==◌, length, u64_size,
}

abbrev pub higher_half_base : ℕ
higher_half_base = 0xffff800000000000

abbrev pub page_4k : ℕ
page_4k = 4096

-- `VirtAddr::try_new`: the upper 17 bits of an address are equal.
abbrev pub is_canonical : ℕ → Bool
is_canonical addr = ltb addr 0x800000000000 || leb 0xffff800000000000 addr

module _ (mapped : ℕ → Bool) where
  -- The walk over the pages from `addr` on.
  unfoldable pub walk : ℕ → ℕ → ℕ → Bool
  walk zero addr end = not (ltb addr end)
  walk (suc fuel) addr end =
      let rest = walk fuel (addr + page_4k) end in
      if ltb addr end
      then is_canonical addr && (mapped addr && (ltb (addr + page_4k) u64_size && rest))
      else true

  unfoldable pub user_range_is_mapped : ℕ → ℕ → Bool
  unfolding walk
  user_range_is_mapped user_ptr len =
      not (user_ptr == 0 || len == 0)
      && (ltb user_ptr higher_half_base
          && (ltb (user_ptr + len) u64_size
              && walk (len / page_4k + 2) (user_ptr / page_4k * page_4k) (user_ptr + len)))

abbrev pub bytes_at : (ℕ → ℕ) → ℕ → ℕ → List ℕ
bytes_at mem addr zero = []
bytes_at mem addr (suc n) = mem addr ∷ bytes_at mem (addr + 1) n

-- `Err(())` is `none`.
unfoldable pub copy_from_user : (ℕ → Bool) → (ℕ → ℕ) → ℕ → ℕ → Option (List ℕ)
unfolding user_range_is_mapped
copy_from_user mapped mem user_ptr count =
    if count == 0
    then some []
    else if user_range_is_mapped mapped user_ptr count
    then some (bytes_at mem user_ptr count)
    else none

abbrev pub put_bytes : (ℕ → ℕ) → ℕ → List ℕ → ℕ → ℕ
put_bytes mem addr [] x = mem x
put_bytes mem addr (b ∷ bs) x = if x == addr then b else put_bytes mem (addr + 1) bs x

-- The memory afterwards.
unfoldable pub copy_to_user : (ℕ → Bool) → (ℕ → ℕ) → ℕ → List ℕ → Option (ℕ → ℕ)
unfolding user_range_is_mapped
copy_to_user mapped mem user_ptr buf =
    if length buf == 0
    then some mem
    else if user_range_is_mapped mapped user_ptr (length buf)
    then some (put_bytes mem user_ptr buf)
    else none
