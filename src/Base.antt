-- ===== src/Base.antt =====
-- Shared names: the libraries' passed on, tests on numbers, lists over the native numbers,
-- and association lists for the program's `HashMap` and `BTreeMap`.
mod Tests
mod Lists
pub mod Assoc
pub mod Distinct
pub mod Int
pub mod Least
pub mod Members
pub mod Sorting
pub mod Sublists
pub use Tests.*
pub use Lists.*
pub use Prim.Native.Nat.{ℕ, zero, suc, ◌+◌, ◌-◌, ◌*◌, ◌/◌, ◌%◌, ◌^◌, ◌≤◌, ◌<◌}
pub use mathlib.Core.Path.{◌≡◌, refl, sym, ap, ◌∙◌}
pub use mathlib.Core.Logic.{◌≢◌, ◌↔◌, ◌⊎◌, inl, inr}
pub use mathlib.Core.Bool.{Bool, true, false, not, ◌&&◌, ◌||◌}
pub use mathlib.Core.Option.{Option, none, some}
pub use mathlib.Core.List.{List, [], ◌∷◌, ◌++◌, map, reverse}
pub use native.Mathlib.Omega.{arith}
