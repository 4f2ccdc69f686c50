-- ===== src/Prelude.antt =====
-- The names that the models share: the libraries', passed on, and those of four children.
mod Tests
mod Lists
mod Assoc
mod Totals
pub mod Text
pub mod Number
pub mod Affix
pub mod Fallible
pub mod Regex
pub mod Order
pub mod Numeral
pub mod Cutting
pub mod Paths
pub mod Sort
pub mod Strict
pub use Tests.*
pub use Lists.*
unfoldable pub use Assoc.{lookup, remove, insert, update}
pub use Assoc.*
unfoldable pub use Totals.{total}
pub use Totals.*
pub use Prim.Native.Nat.{ℕ, zero, suc, ◌+◌, ◌-◌, ◌*◌, ◌/◌, ◌%◌, ◌^◌, ◌≤◌, ◌<◌}
pub use mathlib.Core.Path.{◌≡◌, refl, sym, ap, ◌∙◌, subst}
pub use mathlib.Core.Logic.{◌≢◌, ◌↔◌, ◌⊎◌, inl, inr}
pub use mathlib.Core.Bool.{Bool, true, false, not, ◌&&◌, ◌||◌}
pub use mathlib.Core.Option.{Option, none, some}
pub use mathlib.Core.List.{List, [], ◌∷◌, ◌++◌, map, reverse}
pub use native.Mathlib.Omega.{arith}
