-- ===== src/Base.antt =====
-- The names that the other modules share: the libraries', passed on, and those of the children.
mod Tests
mod Lists
mod Texts
mod Prefixes
mod Objects
pub mod Characters
pub mod Cleaning
pub use Tests.*
pub use Lists.*
unfoldable pub use Texts.{contains}
unfoldable pub use Objects.{lookup, property, keys}
pub use Prefixes.{starts_with-comparable, starts_with-longer, starts_with_self}
pub use Objects.{
  contains-keys, Outcome, returned, thrown, Found, own, inherited, missing, prototype_keys,
}
pub use Texts.{all-contains, contains-subset, contains-append, contains-filter, contains-ext}
pub use Prim.Native.Nat.{ℕ, zero, suc, ◌+◌, ◌-◌, ◌*◌, ◌/◌, ◌%◌, ◌≤◌, ◌<◌}
pub use Prim.Native.String.{String}
pub use mathlib.Core.Path.{◌≡◌, refl, sym, ap, ◌∙◌}
pub use mathlib.Core.Logic.{◌≢◌, ◌↔◌, ◌⊎◌, inl, inr}
pub use mathlib.Core.Bool.{Bool, true, false, not, ◌&&◌, ◌||◌}
pub use mathlib.Core.Option.{Option, none, some}
pub use mathlib.Core.List.{List, [], ◌∷◌, ◌++◌, map}
pub use native.Mathlib.Omega.{arith}
pub use text.Mathlib.Text.{◌==◌, starts_with}
pub use text.Mathlib.TextEquality.{eq_iff}
