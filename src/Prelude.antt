-- ===== src/Prelude.antt =====
-- The names that the other modules share: the libraries', passed on, and those of the children.
mod Tests
mod Lists
mod Texts
mod Ints
pub mod Results
pub mod Effects
unfoldable pub use Tests.*
unfoldable pub use Lists.*
unfoldable pub use Texts.*
unfoldable pub use Ints.*
pub use Results.{
  Failure, error, upload_cancelled, syntax_error, range_error, rejected, Result, ok, err,
  map_result, >>=-eq-ok, ok-injective, Result-cases,
}
unfoldable pub use Results.{map_all}
pub use Effects.{
  Outcome, done, failed, Eff, and_then, pure, throw, lift, catch_failure, try_catch, end_state,
  and_then-eq-done, and_then-eq-failed, catch-eq-done, catch-eq-failed, Outcome-cases,
  failed-injective, done-injective,
}
pub use Prim.Native.Nat.{ℕ, zero, suc, ◌+◌, ◌-◌, ◌*◌, ◌/◌, ◌%◌, ◌^◌, ◌≤◌, ◌<◌, min}
pub use Prim.Native.String.{String}
pub use mathlib.Core.Path.{◌≡◌, refl, sym, ap, ◌∙◌, subst, fun_ext}
pub use mathlib.Core.Logic.{◌≢◌, ◌↔◌, ◌⊎◌, inl, inr}
pub use mathlib.Core.Bool.{Bool, true, false, not, ◌&&◌, ◌||◌}
pub use mathlib.Core.Option.{Option, none, some}
pub use mathlib.Core.List.{List, [], ◌∷◌, ◌++◌, map, append-nil, append_assoc, map-append}
pub use native.Mathlib.Omega.{arith}
