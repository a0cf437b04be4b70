-- ===== src/Base.antt =====
-- The names that the other modules share: the libraries', passed on, and those of the children:
-- Boolean tests, lists, texts and maps.
mod Tests
mod Lists
mod Text
pub mod Map
pub mod Sort
pub use Tests.*
pub use Lists.*
unfoldable pub use Lists.{keep}
unfoldable pub use Text.{str_eq, starts_with, drop_prefix, trim_prefix, contains, str_leb}
pub use Text.{
  Str, codes, str_eq_iff, str_eq_refl, string_eq, str_ne_lem, drop_prefix-some, drop_prefix-append,
}
pub use Prim.Native.Nat.{ℕ, zero, suc, ◌+◌, ◌-◌, ◌≤◌, ◌<◌}
pub use Prim.Native.String.{String}
pub use mathlib.Core.Path.{◌≡◌, refl, sym, ap, ◌∙◌}
pub use mathlib.Core.Logic.{◌≢◌, ◌↔◌, ◌⊎◌, inl, inr}
pub use mathlib.Core.Bool.{Bool, true, false, not, ◌&&◌, ◌||◌}
pub use mathlib.Core.Option.{Option, none, some}
pub use mathlib.Core.List.{List, [], ◌∷◌, ◌++◌, map, append_assoc, append-nil}
pub use native.Mathlib.Omega.{arith}
