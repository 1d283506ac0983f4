-- ===== src/Base.antt =====
-- The names that every module shares: the library's, passed on, and those of the children below.
-- Python values without a type of their own in the library: a text is the list of its code points,
-- and an exception is a value of `PyError`.
mod Tests
mod Equality
mod Outcome
mod Texts
pub mod Exec
pub mod Dict
pub mod Sets
pub mod Lists
unfoldable pub use Tests.*
unfoldable pub use Equality.*
unfoldable pub use Outcome.*
unfoldable pub use Texts.*
pub use Prim.Native.Nat.{ℕ, zero, suc, ◌+◌, ◌-◌, ◌*◌, ◌/◌, ◌%◌, ◌≤◌, ◌<◌}
pub use Prim.Native.String.{String}
pub use mathlib.Core.Path.{◌≡◌, refl, sym, ap, ◌∙◌}
pub use mathlib.Core.Logic.{◌≢◌, ◌↔◌, ◌⊎◌, inl, inr}
pub use mathlib.Core.Bool.{Bool, true, false, not, ◌&&◌, ◌||◌}
pub use mathlib.Core.Option.{Option, none, some}
pub use mathlib.Core.List.{List, [], ◌∷◌, ◌++◌, map}
pub use native.Mathlib.Omega.{arith}
