-- ===== src/Prelude.antt =====
-- The names that every other module shares: the libraries', passed on, the tests on numbers and
-- texts, lists measured by native numbers, predicates over lists, and Go's maps.
mod Tests
mod Lists
mod Maps
mod Orders
mod Outcomes
pub use Tests.*
pub use Lists.*
unfoldable pub use Maps.*
pub use Orders.*
pub use Outcomes.*
pub use Prim.Native.Nat.{ℕ, zero, suc, ◌+◌, ◌-◌, ◌*◌, ◌/◌, ◌%◌, ◌^◌, ◌≤◌, ◌<◌}
pub use Prim.Native.String.{String}
pub use mathlib.Core.Path.{◌≡◌, refl, sym, ap, ◌∙◌, subst}
pub use mathlib.Core.Logic.{◌≢◌, ◌↔◌, ◌⊎◌, inl, inr}
pub use mathlib.Core.Bool.{Bool, true, false, not, ◌&&◌, ◌||◌}
pub use mathlib.Core.Option.{Option, none, some}
pub use mathlib.Core.List.{List, [], ◌∷◌, ◌++◌, map, append-nil, append_assoc}
pub use native.Mathlib.Omega.{arith}
