-- ===== src/Prelude.antt =====
-- The names that the other modules share: the libraries', passed on, and those of the children.
mod Tests
mod Lists
mod Int
mod Assoc
mod Bytes
mod Slices
pub use Tests.*
pub use Lists.*
pub use Int.*
unfoldable pub use Slices.{take, drop}
pub use Slices.{length-drop, take-append, drop-append}
unfoldable pub use Bytes.{text, text_eq}
pub use Bytes.{Text, text_eq_refl, text_eq→eq}
pub use Prim.Native.Nat.{ℕ, zero, suc, ◌+◌, ◌-◌, ◌*◌, ◌/◌, ◌%◌, ◌^◌, ◌≤◌, ◌<◌, min, max}
pub use mathlib.Core.Path.{◌≡◌, refl, sym, ap, ◌∙◌, subst}
pub use mathlib.Core.Logic.{◌≢◌, ◌↔◌, ◌⊎◌, inl, inr}
pub use mathlib.Core.Bool.{Bool, true, false, not, ◌&&◌, ◌||◌}
pub use mathlib.Core.Option.{Option, none, some}
pub use mathlib.Core.List.{List, [], ◌∷◌, ◌++◌, map}
pub use native.Mathlib.Omega.{arith}
unfoldable pub use Assoc.{lookup, insert, erase}
pub use Assoc.{lookup-insert, lookup-erase, lookup-insert_self, lookup-erase_self}
