-- ===== src/Base.antt =====
-- The names that the other modules share: the libraries', passed on, and those of the children.
mod Tests
mod Lists
mod Strings
mod Outcomes
pub mod Table
pub mod Effects
pub mod Returns
pub mod Double
pub use Tests.*
pub use Lists.*
pub use Outcomes.*
unfoldable pub use Strings.{
  Text, Bytes, codes, text_eq, starts_with, ends_with, all_units, split_on, text_leb, join_with,
}
pub use Strings.{
  text_eq_iff, text_eq_refl, text_eq_comm, text_eq_ne, text_leb_total, text_leb_antisymm,
  text_leb_trans,
}
pub use Prim.Native.Nat.{ℕ, zero, suc, ◌+◌, ◌-◌, ◌*◌, ◌/◌, ◌%◌, ◌^◌, ◌≤◌, ◌<◌, min, max}
pub use Prim.Native.String.{String}
pub use mathlib.Core.Path.{◌≡◌, refl, sym, ap, ◌∙◌, subst}
pub use mathlib.Core.Logic.{◌≢◌, ◌↔◌, ◌⊎◌, inl, inr}
pub use mathlib.Core.Bool.{Bool, true, false, not, ◌&&◌, ◌||◌}
pub use mathlib.Core.Option.{Option, none, some}
pub use mathlib.Core.List.{List, [], ◌∷◌, ◌++◌, map}
pub use native.Mathlib.Omega.{arith}
