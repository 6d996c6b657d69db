-- ===== src/Common.antt =====
-- The names that every other module shares: the libraries', passed on, and those of the children
-- (tests on numbers, lists over the native numbers, equality as an interface, association lists).
mod Tests
mod Lists
mod Equality
mod Assoc
mod Fallible
mod Integer
mod Float
pub use Tests.*
pub use Lists.*
pub use Equality.*
unfoldable pub use Assoc.*
pub use Integer.*
pub use Float.*
pub use Fallible.*
pub use Prim.Native.Nat.{ℕ, zero, suc, ◌+◌, ◌-◌, ◌*◌, ◌/◌, ◌%◌, ◌^◌, ◌≤◌, ◌<◌}
pub use mathlib.Core.Path.{◌≡◌, refl, sym, ap, ◌∙◌, subst}
pub use mathlib.Core.Logic.{◌≢◌, ◌↔◌, ◌⊎◌, inl, inr}
pub use mathlib.Core.Bool.{Bool, true, false, not, ◌&&◌, ◌||◌}
pub use mathlib.Core.Option.{Option, none, some}
pub use mathlib.Core.List.{List, [], ◌∷◌, ◌++◌, map, append_assoc, append-nil}
pub use native.Mathlib.Omega.{arith}
