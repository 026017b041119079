-- ===== src/Prelude.antt =====
-- The names that the other modules share: the libraries', passed on, and those of the children.
pub mod Tests
pub mod Lists
pub mod Errors
pub mod Ints
pub mod Text
pub mod Equality
pub mod Distinct
pub mod Tables
pub mod Split
pub use Tests.*
pub use Lists.*
pub use Errors.{
  Result, ok, err, ◌>>=◌, or_fail, map_err, Result-cases, >>=-eq-ok, or_fail-eq-ok, map_err-eq-ok,
  ok-eq-ok, err-eq-ok, ok-eq-ok,
}
unfoldable pub use Ints.*
unfoldable pub use Text.*
unfoldable pub use Equality.*
pub use Distinct.*
unfoldable pub use Tables.*
unfoldable pub use Split.{prepend, split_on}
pub use Split.{split_on-append}
pub use Prim.Native.Nat.{ℕ, zero, suc, ◌+◌, ◌-◌, ◌*◌, ◌/◌, ◌%◌, ◌^◌, ◌≤◌, ◌<◌}
pub use mathlib.Core.Path.{◌≡◌, refl, sym, ap, ◌∙◌, subst}
pub use mathlib.Core.Logic.{◌≢◌, ◌↔◌, ◌⊎◌, inl, inr}
pub use mathlib.Core.Bool.{Bool, true, false, not, ◌&&◌, ◌||◌}
pub use mathlib.Core.Option.{Option, none, some}
pub use mathlib.Core.List.{List, [], ◌∷◌, ◌++◌, map}
pub use native.Mathlib.Omega.{arith}
