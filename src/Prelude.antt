-- ===== src/Prelude.antt =====
-- The vocabulary that every component shares: library names passed on, tests and lists over the
-- native numbers, results with errors, fixed-width integers, and the laws of the bit operations.
mod Tests
mod Lists
mod Results
mod Bits
mod Words
mod Texts
mod Decimal
pub use Tests.*
pub use Lists.*
pub use Results.*
unfoldable pub use Bits.*
unfoldable pub use Words.*
unfoldable pub use Texts.*
unfoldable pub use Decimal.*
pub use Prim.Native.Nat.{ℕ, zero, suc, ◌+◌, ◌-◌, ◌*◌, ◌/◌, ◌%◌, ◌^◌, ◌≤◌, ◌<◌, min, max}
pub use Prim.Native.Nat.{bit_and, bit_or, bit_xor}
pub use mathlib.Core.Path.{◌≡◌, refl, sym, ap, ap₂, subst, ◌∙◌, fun_ext}
pub use mathlib.Core.Logic.{◌≢◌, ◌↔◌, ◌⊎◌, inl, inr}
pub use mathlib.Core.Bool.{Bool, true, false, not, ◌&&◌, ◌||◌}
pub use mathlib.Core.Option.{Option, none, some}
pub use mathlib.Core.List.{List, [], ◌∷◌, ◌++◌, map, append-nil, append_assoc}
pub use native.Mathlib.Omega.{arith}
