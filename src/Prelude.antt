-- ===== src/Prelude.antt =====
-- Names that the other modules share: the library's, passed on, and those of the children.
mod Tests
mod Lists
mod Rows
mod Keys
mod Text
mod Strings
pub use Tests.*
pub use Lists.*
unfoldable pub use Rows.{find_where, select_where, update_where, exists_where, count_where}
pub use Rows.*
pub use Keys.*
pub use Text.*
pub use Strings.*
unfoldable pub use Strings.{
  is_space, drop_while, drop_end, strip, starts_with, text_eq, contains, before_first, find, rfind,
  slice,
}
unfoldable pub use Text.{show_nat, sort_by}
pub use Prim.Native.Nat.{ℕ, zero, suc, ◌+◌, ◌-◌, ◌*◌, ◌/◌, ◌%◌, ◌^◌, ◌≤◌, ◌<◌}
pub use Prim.Native.String.{String}
pub use mathlib.Core.Path.{◌≡◌, refl, sym, ap, ◌∙◌}
pub use mathlib.Core.Logic.{◌≢◌, ◌↔◌, ◌⊎◌, inl, inr}
pub use mathlib.Core.Bool.{Bool, true, false, not, ◌&&◌, ◌||◌}
pub use mathlib.Core.Option.{Option, none, some}
pub use mathlib.Core.List.{List, [], ◌∷◌, ◌++◌, map}
pub use native.Mathlib.Omega.{arith}
pub use text.Mathlib.Text.{◌==◌ as str_eq}
pub use text.Mathlib.TextEquality.{eq_iff}
