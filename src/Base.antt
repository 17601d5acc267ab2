-- ===== src/Base.antt =====
-- The names that the other modules share: those of the libraries, passed on, and tests, keys,
-- results, lists, tables and text, each in a child of its own.
pub mod Tests
pub mod Keys
pub mod Errors
pub mod Lists
pub mod Json
pub mod Real
pub mod Samples
pub mod Text
pub mod Table
pub use Prim.Native.Nat.{ℕ, zero, suc, ◌+◌, ◌-◌, ◌*◌, ◌/◌, ◌%◌, ◌≤◌, ◌<◌}
pub use Prim.Native.String.{String}
pub use mathlib.Core.Path.{◌≡◌, refl, sym, ap, ◌∙◌}
pub use mathlib.Core.Logic.{◌≢◌, ◌↔◌, ◌⊎◌, inl, inr}
pub use mathlib.Core.Bool.{Bool, true, false, not, ◌&&◌, ◌||◌}
pub use mathlib.Core.Option.{Option, none, some}
pub use mathlib.Core.List.{List, [], ◌∷◌, ◌++◌, map}
pub use native.Mathlib.Omega.{arith}
pub use Tests.*
pub use Keys.*
pub use Errors.*
