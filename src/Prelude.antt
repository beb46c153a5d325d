-- ===== src/Prelude.antt =====
-- The names that the other modules share: the libraries', passed on, and those of the children.
mod Tests
mod Lists
mod Text
mod Results
mod Cut
mod Decimal
mod Int
pub use Tests.*
pub use Lists.*
pub use Text.*
pub use Results.*
pub use Int.*
pub use Decimal.{
  value_onto, IsDigit, pow_one, value-format_uint, format_uint-IsDigit, length-format_uint,
}
unfoldable pub use Decimal.{format_uint}
pub use Cut.{onto_first, Lacks, cut-Lacks, cut-join, cut-sep, unlines, text_lines-unlines}
unfoldable pub use Cut.{cut, text_lines}
pub use Prim.Native.Nat.{ℕ, zero, suc, ◌+◌, ◌-◌, ◌*◌, ◌/◌, ◌%◌, ◌^◌, ◌≤◌, ◌<◌, min}
pub use mathlib.Core.Path.{◌≡◌, refl, sym, ap, ◌∙◌}
pub use mathlib.Core.Logic.{◌≢◌, ◌↔◌, ◌⊎◌, inl, inr}
pub use mathlib.Core.Bool.{Bool, true, false, not, ◌&&◌, ◌||◌}
pub use mathlib.Core.Option.{Option, none, some}
pub use mathlib.Core.List.{List, [], ◌∷◌, ◌++◌, map, append-nil, append_assoc}
pub use native.Mathlib.Omega.{arith}
