-- ===== src/Prelude.antt =====
-- Names that all modules share: the libraries', passed on, and those of the children (tests on
-- numbers, lists, slices, equality, sorting, keys, dictionaries, signed integers). It models no code of its own.
mod Tests
mod Lists
mod Equality
pub mod Dict
pub mod Int
pub mod Sort
pub mod Slices
pub mod Keys
pub mod Texts
pub use Tests.*
pub use Lists.*
pub use Equality.*
pub use Prim.Native.Nat.{ℕ, zero, suc, ◌+◌, ◌-◌, ◌*◌, ◌/◌, ◌%◌, ◌^◌, ◌≤◌, ◌<◌}
pub use Prim.Native.String.{String}
pub use mathlib.Core.Path.{◌≡◌, refl, sym, ap, ◌∙◌}
pub use mathlib.Core.Logic.{◌≢◌, ◌↔◌, ◌⊎◌, inl, inr}
pub use mathlib.Core.Bool.{Bool, true, false, not, ◌&&◌, ◌||◌}
pub use mathlib.Core.Option.{Option, none, some}
pub use mathlib.Core.List.{List, [], ◌∷◌, ◌++◌, map}
pub use native.Mathlib.Omega.{arith}
