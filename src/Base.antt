-- ===== src/Base.antt =====
-- The names that all parts share: the library's, passed on, Boolean tests, the outcome of a Go call
-- (`Base/Calls`), Go maps with text keys (`Base/Dict`), facts on lists (`Base/Lists`) and
-- `slices.SortFunc` with `cmp.Compare` and `cmp.Or` (`Base/Sort`).
pub mod Calls
pub mod Dict
pub mod Lists
pub mod Runs
pub mod Sort
pub mod Tests
pub mod Text
pub use Tests.*
pub use Calls.*
pub use Prim.Native.Nat.{ℕ, zero, suc, ◌+◌, ◌-◌, ◌*◌, ◌/◌, ◌%◌, ◌≤◌, ◌<◌}
pub use Prim.Native.String.{String, ◌++◌ as ◌<>◌}
pub use mathlib.Core.Path.{◌≡◌, refl, sym, ap, ap₂, ◌∙◌, fun_ext, subst}
pub use mathlib.Core.Logic.{◌≢◌, ◌↔◌, ◌⊎◌, inl, inr}
pub use mathlib.Core.Bool.{Bool, true, false, ◌&&◌, ◌||◌, not}
pub use mathlib.Core.Option.{Option, none, some, some-injective}
pub use mathlib.Core.List.{List, [], ◌∷◌, ◌++◌, map, append-nil, append_assoc, map-append}
pub use native.Mathlib.Omega.{arith}
pub use text.Mathlib.Text.{◌==◌}
pub use text.Mathlib.TextEquality.{eq_iff}
