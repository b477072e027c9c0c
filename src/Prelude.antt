-- ===== src/Prelude.antt =====
-- The names that all parts share: those of the libraries, the tests on numbers, lists indexed by
-- native numbers, signed integers, and arrays as functions of the index.
mod Tests
mod Lists
mod Arrays
mod Divide
mod Sums
pub mod Int
pub use Tests.*
pub use Lists.*
unfoldable pub use Arrays.*
pub use Divide.*
unfoldable pub use Sums.*
pub use Prim.Native.Nat.{ℕ, zero, suc, ◌+◌, ◌-◌, ◌*◌, ◌/◌, ◌%◌, ◌^◌, ◌≤◌, ◌<◌}
pub use mathlib.Core.Path.{◌≡◌, refl, sym, ap, ◌∙◌}
pub use mathlib.Core.Logic.{◌≢◌, ◌↔◌, ◌⊎◌, inl, inr}
pub use mathlib.Core.Bool.{Bool, true, false, ◌&&◌, ◌||◌, not}
pub use mathlib.Core.Option.{Option, none, some}
pub use mathlib.Core.List.{List, [], ◌∷◌, ◌++◌, map}
pub use native.Mathlib.Omega.{arith}
