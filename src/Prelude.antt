-- ===== src/Prelude.antt =====
-- The names that the other modules share: the libraries', passed on, and those of the children.
mod Tests
mod Lists
mod ByteList
mod Int
mod Keys
mod IntMap
pub use Tests.*
pub use Lists.*
unfoldable pub use ByteList.{
  ◌==◌, list_lt, starts_with, contains, remove_all, assoc, assoc_put, assoc_remove,
}
pub use ByteList.{
  Bytes, Text, codes, ==_iff, list_lt-asym, starts_with_append, assoc-assoc_put, assoc-assoc_remove,
}
unfoldable pub use IntMap.{at, put_at, remove_at}
pub use IntMap.{at-put_at, at-remove_at}
pub use Keys.{Distinct, assoc_put-Distinct}
pub use Int.{ℤ, pos, negsuc}
pub use Prim.Native.Nat.{ℕ, zero, suc, ◌+◌, ◌-◌, ◌*◌, ◌/◌, ◌%◌, ◌^◌, ◌≤◌, ◌<◌}
pub use Prim.Native.String.{String}
pub use mathlib.Core.Path.{◌≡◌, refl, sym, ap, ap₂, subst, ◌∙◌}
pub use mathlib.Core.Logic.{◌≢◌, ◌↔◌, ◌⊎◌, inl, inr}
pub use mathlib.Core.Bool.{Bool, true, false, not, ◌&&◌, ◌||◌}
pub use mathlib.Core.Option.{Option, none, some}
pub use mathlib.Core.List.{List, [], ◌∷◌, ◌++◌, map, reverse}
pub use native.Mathlib.Omega.{arith}
