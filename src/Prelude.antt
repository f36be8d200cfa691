-- ===== src/Prelude.antt =====
-- The names that the other modules share: the libraries', passed on, and those of the children.
pub mod Int
pub mod Outcome
mod Tests
mod Lists
mod Text
mod Sorting
pub use Tests.*
pub use Lists.*
unfoldable pub use Text.{
  is_whitespace, trim_start, trim_end, trim, split_whitespace, lines, format, decimal, contains,
  utf8_len, trim_end_matches,
}
unfoldable pub use Sorting.{text_leb, insert_by, sort_by}
pub use Sorting.{
  count, IsSorted, Apart, AllApart, sort_by-sort_by, count-sort_by, All-sort_by, sort_by-IsSorted,
}
pub use Prim.Native.Nat.{ℕ, zero, suc, ◌+◌, ◌-◌, ◌*◌, ◌/◌, ◌%◌, ◌^◌, ◌≤◌, ◌<◌, min, max}
pub use Prim.Native.String.{String, len}
pub use mathlib.Core.Path.{◌≡◌, refl, sym, ap, ◌∙◌}
pub use mathlib.Core.Logic.{◌≢◌, ◌↔◌, ◌⊎◌, inl, inr}
pub use mathlib.Core.Bool.{Bool, true, false, not, ◌&&◌, ◌||◌}
pub use mathlib.Core.Option.{Option, none, some}
pub use mathlib.Core.List.{List, [], ◌∷◌, ◌++◌, map}
pub use native.Mathlib.Omega.{arith}
pub use text.Mathlib.Text.{◌==◌}
pub use text.Mathlib.TextEquality.{eq_iff}
pub use text.Mathlib.TextPositions.{eq_refl}
