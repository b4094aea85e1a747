-- ===== src/Prelude.antt =====
-- The names that the other modules share: the libraries', passed on, and those of the children.
mod Tests
mod Lists
mod Tables
mod Sorting
mod Texts
mod Dicts
mod Ordering
mod Integers
pub use Tests.*
pub use Lists.*
pub use Tables.*
unfoldable pub use Sorting.{order_by, insert_by}
pub use Sorting.{
  IsSorted, order_by-IsSorted, order_by-eq_self, length-order_by, order_by-perm, order_by-snoc,
  count-order_by, delete-order_by,
}
pub use Texts.*
pub use Integers.*
unfoldable pub use Ordering.{sort_by}
pub use Ordering.{
  OrderLaws, IsOrdered, sort_by-IsOrdered, All-sort_by, any-sort_by, count-sort_by, All-take-drop,
  IsOrdered-take, length-take-le, is_newer, is_newer-OrderLaws,
}
unfoldable pub use Dicts.{get_or, put}
pub use Dicts.{get_or-put}
pub use Prim.Native.Nat.{ℕ, zero, suc, ◌+◌, ◌-◌, ◌*◌, ◌/◌, ◌%◌, ◌≤◌, ◌<◌}
pub use mathlib.Core.Path.{◌≡◌, refl, sym, ap, ◌∙◌}
pub use mathlib.Core.Logic.{◌≢◌, ◌↔◌, ◌⊎◌, inl, inr}
pub use mathlib.Core.Bool.{Bool, true, false, not, ◌&&◌, ◌||◌}
pub use mathlib.Core.Option.{Option, none, some}
pub use mathlib.Core.List.{List, [], ◌∷◌, ◌++◌, map}
pub use native.Mathlib.Omega.{arith}
