-- ===== src/Prelude.antt =====
-- The names that the other modules share: the libraries', passed on, and those of the children.
mod Tests
mod Maps
mod Text
mod Int
pub mod TextLaws
pub use Tests.*
pub use Int.*
unfoldable pub use Maps.{HashMap, length, get, insert, remove, retain, IsMap}
pub use Maps.{
  get-insert, get-insert_self, get-insert_other, get-remove, get-retain, retain-IsMap, insert-IsMap,
  remove-IsMap, length-retain-le, length-remove-le, length-remove, length-insert_new,
  length-insert_old, length-insert-le,
}
pub use Prim.Native.Nat.{ℕ, zero, suc, ◌+◌, ◌-◌, ◌*◌, ◌/◌, ◌%◌, ◌^◌, ◌≤◌, ◌<◌}
pub use Prim.Native.String.{String}
pub use mathlib.Core.Path.{◌≡◌, refl, sym, ap, ◌∙◌}
pub use mathlib.Core.Logic.{◌≢◌, ◌↔◌, ◌⊎◌, inl, inr}
pub use mathlib.Core.Bool.{Bool, true, false, not, ◌&&◌, ◌||◌}
pub use mathlib.Core.Option.{Option, none, some}
pub use mathlib.Core.List.{List, [], ◌∷◌, ◌++◌, map}
pub use native.Mathlib.Omega.{arith}
unfoldable pub use Text.{
  strip_prefix, starts_with, contains_char, contains, ends_with, all_chars, is_empty, split,
  to_string, u64_max, parse_digits, parse_u64, replace,
}
