-- ===== src/Base.antt =====
-- Names that the whole development shares: those of the libraries, passed on, and those of the
-- children (tests, lists, tables of rows, integers, actions).
mod Tests
mod Lists
mod Rows
mod Keys
mod Sweeps
mod Strip
pub mod Int
mod Order
pub use Tests.*
pub use Lists.*
pub use Order.*
pub use Rows.*
pub use Keys.*
pub use Sweeps.*
pub use Strip.*
pub use Prim.Native.Nat.{ℕ, zero, suc, ◌+◌, ◌-◌, ◌*◌, ◌/◌, ◌%◌, ◌≤◌, ◌<◌, max}
pub use Prim.Native.String.{String}
pub use mathlib.Core.Path.{◌≡◌, refl, sym, ap, ◌∙◌}
pub use mathlib.Core.Logic.{◌≢◌, ◌⊎◌, inl, inr}
pub use mathlib.Core.Bool.{Bool, true, false, not, ◌&&◌, ◌||◌}
pub use mathlib.Core.Option.{Option, none, some}
pub use mathlib.Core.List.{List, [], ◌∷◌, ◌++◌, map}
pub use native.Mathlib.Omega.{arith}
pub use text.Mathlib.TextEquality.{eq_iff}
