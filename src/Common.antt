-- ===== src/Common.antt =====
-- The names that the other modules share: the libraries' that they use most, passed on, and those of
-- the children: tests, lists, outcomes of C code and machine words.
mod Tests
mod Lists
mod Abort
mod Word
mod Bytes
pub mod Int
pub mod Text
pub mod Slices
pub use Tests.*
pub use Lists.*
pub use Abort.*
pub use Word.*
pub use Bytes.*
pub use Prim.Native.Nat.{ℕ, zero, suc, ◌+◌, ◌-◌, ◌*◌, ◌/◌, ◌%◌, ◌^◌, ◌≤◌, ◌<◌, min}
pub use mathlib.Core.Path.{◌≡◌, refl, sym, ap, ap₂, ◌∙◌}
pub use mathlib.Core.Logic.{◌≢◌, ◌↔◌, ◌⊎◌, inl, inr}
pub use mathlib.Core.Bool.{Bool, true, false, not, ◌&&◌, ◌||◌}
pub use mathlib.Core.Option.{Option, none, some}
pub use mathlib.Core.List.{List, [], ◌∷◌, ◌++◌, map}
pub use native.Mathlib.Omega.{arith}
