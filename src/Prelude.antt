-- ===== src/Prelude.antt =====
-- The names that the other modules share: the libraries', passed on, and those of the children.
-- No code of the repository is modelled here; `Text` and `Map` stand for Go's strings and maps.
mod Tests
mod Eq
mod Bytes
pub mod Maps
mod Strings
unfoldable pub use Strings.{text_le, insert_sorted, sort_texts, join}
pub use Tests.*
pub use Eq.{Equality, ◌==◌}
pub use Bytes.{Text, codes, text_eq_iff, text_equality}
unfoldable pub use Bytes.{text_eq}
pub use Maps.{Map, lookup-insert, lookup-delete, eq_refl}
unfoldable pub use Maps.{lookup, insert, delete}
pub use Prim.Native.Nat.{ℕ, zero, suc, ◌+◌, ◌-◌, ◌≤◌, ◌<◌}
pub use mathlib.Core.Path.{◌≡◌, refl, sym, ap, ◌∙◌}
pub use mathlib.Core.Logic.{◌≢◌, ◌↔◌, ◌⊎◌, inl, inr}
pub use mathlib.Core.Bool.{Bool, true, false, not, ◌&&◌, ◌||◌}
pub use mathlib.Core.Option.{Option, none, some}
pub use mathlib.Core.List.{List, [], ◌∷◌, ◌++◌, map}
pub use native.Mathlib.Omega.{arith}
