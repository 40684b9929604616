-- ===== src/Prelude.antt =====
-- The names that the other modules share: library names passed on, and those of the children.
mod Tests
mod Lists
mod Results
mod Texts
mod Stripped
pub mod Splits
mod Decimal
pub mod Quote
pub use Tests.*
pub use Lists.*
pub use Results.*
unfoldable pub use Texts.{
  is_space, lstrip, rstrip, strip, rstrip_char, lower_char, lower, split_on, contains_char,
  ends_with, truncate, upper, remove_char, lstrip_char, before_last,
}
pub use Stripped.{strip_idem}
pub use Texts.{concat, join, push_front}
unfoldable pub use Decimal.{decimal, int_of}
pub use Decimal.{int_of-decimal, decimal-lacks}
unfoldable pub use Quote.{quote}
pub use Prim.Native.Nat.{ℕ, zero, suc, ◌+◌, ◌-◌, ◌*◌, ◌/◌, ◌%◌, ◌^◌, ◌≤◌, ◌<◌}
pub use Prim.Native.String.{String}
pub use mathlib.Core.Path.{◌≡◌, refl, sym, ap, ◌∙◌}
pub use mathlib.Core.Logic.{◌≢◌, ◌↔◌, ◌⊎◌, inl, inr}
pub use mathlib.Core.Bool.{Bool, true, false, ◌&&◌, ◌||◌, not}
pub use mathlib.Core.Option.{Option, none, some}
pub use mathlib.Core.List.{List, [], ◌∷◌, ◌++◌, map}
pub use native.Mathlib.Omega.{arith}
pub use text.Mathlib.Text.{◌==◌ as ◌=ˢ◌}
pub use text.Mathlib.TextEquality.{eq_iff}
pub use text.Mathlib.TextPositions.{eq_refl}
