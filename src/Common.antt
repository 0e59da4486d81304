-- ===== src/Common.antt =====
-- Names that the other modules share: the libraries' names, passed on, and those of the children.
mod Tests
mod Lists
mod Sorting
mod Texts
mod Maps
pub use Tests.*
pub use Sorting.*
pub use Lists.*
pub use Maps.*
pub use Texts.Numbers.{scan, scan-itoa}
unfoldable pub use Texts.{is_space, text_eq, trim_space, to_lower, itoa, contains_any}
pub use Texts.{
  Text, codes, text_eq_iff, text_eq_refl, text_eq_comm, is_empty, byte_len, join, has_prefix,
  is_digit,
}
pub use Prim.Native.Nat.{ℕ, zero, suc, ◌+◌, ◌-◌, ◌*◌, ◌/◌, ◌%◌, ◌^◌, ◌≤◌, ◌<◌}
pub use mathlib.Core.Path.{◌≡◌, refl, sym, ap, subst, ◌∙◌}
pub use mathlib.Core.Logic.{◌≢◌, ◌↔◌, ◌⊎◌, inl, inr}
pub use mathlib.Core.Bool.{Bool, true, false, not, ◌&&◌, ◌||◌}
pub use mathlib.Core.Option.{Option, none, some}
pub use mathlib.Core.List.{List, [], ◌∷◌, ◌++◌, map}
pub use native.Mathlib.Omega.{arith}
