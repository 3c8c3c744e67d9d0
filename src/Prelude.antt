-- ===== src/Prelude.antt =====
-- The names that the other modules share: the libraries', passed on, and those of the private children.
mod Tests
mod Lists
mod Store
mod Fault
pub mod Int
pub mod Run
pub mod Gives
pub mod Errno
pub use Tests.*
pub use Lists.*
unfoldable pub use Store.*
unfoldable pub use Fault.*
pub use Prim.Native.Nat.{ℕ, zero, suc, ◌+◌, ◌-◌, ◌*◌, ◌/◌, ◌%◌, ◌^◌, ◌≤◌, ◌<◌}
pub use mathlib.Core.Path.{◌≡◌, refl, sym, ap, ◌∙◌}
pub use mathlib.Core.Logic.{◌≢◌, ◌↔◌, ◌⊎◌, inl, inr}
pub use mathlib.Core.Bool.{Bool, true, false, ◌&&◌, ◌||◌, not}
pub use mathlib.Core.Option.{Option, none, some}
pub use mathlib.Core.List.{List, [], ◌∷◌, ◌++◌, map}
pub use native.Mathlib.Omega.{arith}
