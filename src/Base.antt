-- ===== src/Base.antt =====
-- The names that the other modules share: the libraries', passed on, and those of the children.
mod Tests
mod Lists
mod Sorting
mod Text
unfoldable pub use Text.{is_space, is_blank, show}
pub use Tests.*
pub use Lists.{
  length, length-append, take, drop, length-drop, All, Pairs, All-append, All-select, All-find,
  All-map, All-update, Pairs-select, find-none-any, All-of-any, All-false-find,
}
pub use Sorting.{sort-Perm, sort-Pairs, length-sort, take-drop, length-take, length-select}
unfoldable pub use Sorting.{insert, sort}
unfoldable pub use Lists.{any, all, find, select, update, count}
pub use Prim.Native.Nat.{ℕ, zero, suc, ◌+◌, ◌-◌, ◌*◌, ◌≤◌, ◌<◌, min, max}
pub use Prim.Native.String.{String, ◌++◌ as ◌<>◌}
pub use mathlib.Core.Path.{◌≡◌, refl, sym, ap, subst, ◌∙◌}
pub use mathlib.Core.Logic.{◌≢◌, ◌↔◌, ◌⊎◌, inl, inr}
pub use mathlib.Core.Bool.{Bool, true, false, not, ◌&&◌, ◌||◌}
pub use mathlib.Core.Option.{Option, none, some}
pub use mathlib.Core.List.{List, [], ◌∷◌, ◌++◌, map, Perm}
pub use native.Mathlib.Omega.{arith}
pub use text.Mathlib.TextEquality.{eq_iff}
pub use text.Mathlib.TextPositions.{eq_refl}
