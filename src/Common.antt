-- ===== src/Common.antt =====
-- The names that the other modules share: the libraries', passed on, and those of the children.
mod Tests
mod Lists
mod Bytes
mod Dicts
mod Int
pub mod Decimal
pub use Tests.*
pub use Lists.*
pub use Int.*
pub use Bytes.{
  Text, codes, text_eq_refl, text_eq_iff, text_eq_apart, is_empty, has_prefix-append,
  has_prefix-split,
}
unfoldable pub use Bytes.{text_eq, has_prefix}
pub use Dicts.{
  Dict, lookup-insert, lookup-delete, lookup-insert_self, lookup-insert_ne, lookup-delete_self,
  lookup-delete_ne, IsDict, keep_some, lookup-retain, retain-IsDict, insert-IsDict, delete-IsDict,
  length-insert-le, length-retain-le, dict_laws,
}
unfoldable pub use Dicts.{lookup, insert, delete, retain, keys}
pub use Prim.Native.Nat.{ℕ, zero, suc, ◌+◌, ◌-◌, ◌*◌, ◌/◌, ◌%◌, ◌^◌, ◌≤◌, ◌<◌}
pub use mathlib.Core.Path.{◌≡◌, refl, sym, ap, ◌∙◌, subst}
pub use mathlib.Core.Logic.{◌≢◌, ◌↔◌, ◌⊎◌, inl, inr}
pub use mathlib.Core.Bool.{Bool, true, false, not, ◌&&◌, ◌||◌}
pub use mathlib.Core.Option.{Option, none, some}
pub use mathlib.Core.List.{List, [], ◌∷◌, ◌++◌, map}
pub use native.Mathlib.Omega.{arith}
