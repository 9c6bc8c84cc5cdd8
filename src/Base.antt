-- ===== src/Base.antt =====
-- The names that the other modules share: the libraries', passed on, the tests on numbers, the
-- conditional, results, strings, a sort, and lists measured by native numbers.
mod Tests
mod Lists
mod Results
mod Words
mod Sorting
pub use Tests.*
pub use Lists.*
pub use Results.*
pub use Words.*
pub use Sorting.*
pub use Prim.Native.Nat.{ℕ, zero, suc, ◌+◌, ◌-◌, ◌*◌, ◌/◌, ◌%◌, ◌≤◌, ◌<◌, min, max}
pub use mathlib.Core.Path.{◌≡◌, refl, sym, ap, ◌∙◌, subst}
pub use mathlib.Core.Logic.{◌≢◌, ◌↔◌, ◌⊎◌, inl, inr}
pub use mathlib.Core.Bool.{Bool, true, false, ◌&&◌, ◌||◌, not}
pub use mathlib.Core.Option.{Option, none, some}
pub use mathlib.Core.List.{List, [], ◌∷◌, ◌++◌, map}
pub use native.Mathlib.Omega.{arith}
