-- ===== src/Prelude.antt =====
-- The names that the other modules share: the libraries', passed on, and those of the children.
mod Tests
mod Lists
mod Order
mod Dicts
mod Search
mod Sorting
mod Reordering
mod Strings
pub use Tests.*
pub use Lists.{
  length, get_elem?, is_empty, All, Any, length-append, All-append, All-map, Any-append_left,
  Any-append_right,
}
unfoldable pub use Lists.{exists_in}
pub use Order.{Eq, Ord, Text, lit, nat_eq, text_eq, text_ord, ◌==◌, text_beq_iff}
unfoldable pub use Order.{text_beq, text_less}
pub use Dicts.{Dict, lookup-delete, lookup-insert, beq_refl}
unfoldable pub use Dicts.{lookup, delete, insert}
pub use Search.{Splits, IsMonotone, search-Splits, Splits-unique}
unfoldable pub use Search.{search}
pub use Prim.Native.Nat.{ℕ, zero, suc, ◌+◌, ◌-◌, ◌*◌, ◌/◌, ◌≤◌, ◌<◌}
pub use mathlib.Core.Path.{◌≡◌, refl, sym, ap, ◌∙◌}
pub use mathlib.Core.Logic.{◌≢◌, ◌↔◌, ◌⊎◌, inl, inr}
pub use mathlib.Core.Bool.{Bool, true, false, not, ◌&&◌, ◌||◌}
pub use mathlib.Core.Option.{Option, none, some}
pub use mathlib.Core.List.{List, [], ◌∷◌, ◌++◌, map}
pub use native.Mathlib.Omega.{arith}
pub use Sorting.{
  IsOrdered, IsLess, by_key, by_key-IsLess, All-stable, stable-IsOrdered, exists_in-stable,
  exists_in-filter, length-stable, filter-stable,
}
unfoldable pub use Sorting.{filter, place, stable}
pub use Reordering.{
  Reorders, none_left, keep, swap, both, All-Reorders, Reorders-append, blocks, stable-Reorders,
}
pub use Strings.{
  Avoids, split_on_last, split_on-append, join_with-split_on, Avoids-split_on, has_prefix-append,
  trim_prefix-append,
}
unfoldable pub use Strings.{has_prefix, trim_prefix, split_on, join_with}
