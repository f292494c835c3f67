-- ===== src/Prelude.antt =====
-- The names that every module shares: those of the libraries, passed on, and its children.
mod Tests
mod Lists
mod Text
mod Bits
mod Ints
mod Case
pub use Tests.*
pub use Lists.*
pub use Text.{
  String, len, ◌+++◌, str_eq, starts_with, eq_iff, is_empty, all_chars, opt_eq, strip_prefix,
  str_eq_self,
}
unfoldable pub use Text.{decimal}
pub use Bits.{bit_or_disjoint, low_bits}
pub use Ints.{ℤ, pos, negsuc, int_leb, int_eq}
unfoldable pub use Ints.{int_text}
unfoldable pub use Case.{lower_contains, lower_starts_with, contains}
pub use Prim.Native.Nat.{bit_and, bit_or}
pub use Prim.Native.Nat.{ℕ, zero, suc, ◌+◌, ◌-◌, ◌*◌, ◌/◌, ◌%◌, ◌^◌, ◌≤◌, ◌<◌, min}
pub use mathlib.Core.Path.{◌≡◌, refl, sym, ap, ◌∙◌}
pub use mathlib.Core.Logic.{◌≢◌, ◌↔◌, ◌⊎◌, inl, inr}
pub use mathlib.Core.Bool.{Bool, true, false, not, ◌&&◌, ◌||◌}
pub use mathlib.Core.Option.{Option, none, some}
pub use mathlib.Core.List.{List, [], ◌∷◌, ◌++◌, map}
pub use native.Mathlib.Omega.{arith}
