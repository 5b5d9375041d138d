-- ===== src/Common.antt =====
-- The names that the components share: those of the libraries, passed on, and those of its children.
mod Logic
mod Lists
mod Reads
mod Bytes
mod Int
pub use Logic.*
pub use Lists.*
pub use Reads.*
pub use Int.*
pub use Bytes.{
  bytes_eq, bytes_lt, bytes_eq_refl, bytes_eq→eq, starts_with-append, drop-append,
  starts_with-split,
}
unfoldable pub use Bytes.{starts_with}
pub use Prim.Native.Nat.{
  ℕ, zero, suc, ◌+◌, ◌-◌, ◌*◌, ◌/◌, ◌%◌, ◌^◌, ◌≤◌, ◌<◌, min, max, bit_and, bit_or,
}
pub use mathlib.Core.Path.{◌≡◌, refl, sym, ap, ◌∙◌, subst}
pub use mathlib.Core.Logic.{◌≢◌, ◌↔◌, ◌⊎◌, inl, inr}
pub use mathlib.Core.Bool.{Bool, true, false, ◌&&◌, ◌||◌, not}
pub use mathlib.Core.Option.{Option, none, some}
pub use mathlib.Core.List.{List, [], ◌∷◌, ◌++◌, map, reverse, append_assoc}
pub use native.Mathlib.Omega.{arith}
