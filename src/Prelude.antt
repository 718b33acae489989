-- ===== src/Prelude.antt =====
-- The names that the other modules share: the libraries', passed on, and those of the children.
mod Tests
mod Lists
mod Text
mod Results
mod Int
pub mod Assoc
pub mod Decimal
pub mod ParseInt
pub mod Sort
pub use Tests.*
pub use Lists.*
unfoldable pub use Lists.{keep, count}
unfoldable pub use Text.{str_eq, starts_with, contains}
pub use Text.{
  Str, codes, str_eq_iff, str_eq_refl, starts_with-append, contains-append, contains_of_starts_with,
}
pub use Results.*
unfoldable pub use Results.{◌>>=◌}
pub use Int.{ℤ, pos, negsuc, pos_part, neg_part, sub_ℕ, leb_ℤ, is_positive}
unfoldable pub use Int.{◌-ℤ◌}
pub use Prim.Native.Nat.{ℕ, zero, suc, ◌+◌, ◌-◌, ◌*◌, ◌/◌, ◌%◌, ◌≤◌, ◌<◌}
pub use mathlib.Core.Path.{◌≡◌, refl, sym, ap, ◌∙◌, subst, fun_ext}
pub use mathlib.Core.Logic.{◌≢◌, ◌↔◌, ◌⊎◌, inl, inr}
pub use mathlib.Core.Bool.{Bool, true, false, ◌&&◌, ◌||◌, not}
pub use mathlib.Core.Option.{Option, none, some}
pub use mathlib.Core.List.{List, [], ◌∷◌, ◌++◌, map, append_assoc, append-nil}
pub use native.Mathlib.Omega.{arith}
