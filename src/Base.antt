-- ===== src/Base.antt =====
-- The names that the other modules share: those of the libraries, passed on, and those of the
-- children, which hold tests on numbers, lists under native indices, byte strings and the signed
-- integers.
mod Tests
mod Lists
mod Text
mod Int
unfoldable pub use Tests.*
pub use Text.{Bytes, same_iff, same_refl}
unfoldable pub use Text.{text, same, is_empty}
pub use Lists.{
  length, get_or, set, take, drop, length-append, get_or-append, take-append, drop-append,
  drop-drop, length-drop, take-length, length-set, length-replicate, get_or-replicate, get_or-set,
  length-flatten-set,
}
unfoldable pub use Lists.{replicate, keep}
pub use Int.{ℤ, pos, negsuc, pos_part, neg_part, sub_ℕ, ◌≤ℤ◌, ltb_ℤ, +ℤ_parts, -ℤ_parts}
unfoldable pub use Int.{◌+ℤ◌, ◌-ℤ◌}
pub use Prim.Native.Nat.{ℕ, zero, suc, ◌+◌, ◌-◌, ◌*◌, ◌/◌, ◌%◌, ◌^◌, ◌≤◌, ◌<◌, min, max}
pub use mathlib.Core.Path.{◌≡◌, refl, sym, ap, ◌∙◌, subst, subst₂}
pub use mathlib.Core.Logic.{◌≢◌, ◌↔◌, ◌⊎◌, inl, inr}
pub use mathlib.Core.Bool.{Bool, true, false, not, ◌&&◌, ◌||◌}
pub use mathlib.Core.Option.{Option, none, some}
pub use mathlib.Core.List.{List, [], ◌∷◌, ◌++◌, map}
unfoldable pub use mathlib.Core.List.{flatten}
pub use native.Mathlib.Omega.{arith}
