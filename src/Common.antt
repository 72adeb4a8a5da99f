-- ===== src/Common.antt =====
-- The names that the other modules share: the libraries', passed on, and those of the children.
mod Tests
mod Lists
mod Panics
mod Maps
mod Order
mod Sorting
pub use Tests.*
pub use Lists.*
pub use Panics.*
pub use Order.{
  StrictWeak, Ordered, All-map, StrictWeak-at_least, codes, less_codes, less_text-StrictWeak,
}
unfoldable pub use Order.{less_text}
pub use Sorting.*
unfoldable pub use Maps.{Dict, lookup, insert, delete, has_key}
pub use Maps.{lookup-insert, lookup-delete, has_key-lookup, has_key-insert, has_key-delete}
pub use Prim.Native.Nat.{ℕ, zero, suc, ◌+◌, ◌-◌, ◌*◌, ◌/◌, ◌%◌, ◌^◌, ◌≤◌, ◌<◌}
pub use Prim.Native.String.{String}
pub use mathlib.Core.Path.{◌≡◌, refl, sym, ap, ◌∙◌, subst}
pub use mathlib.Core.Logic.{◌≢◌, ◌↔◌, ◌⊎◌, inl, inr}
pub use mathlib.Core.Bool.{Bool, true, false, not, ◌&&◌, ◌||◌}
pub use mathlib.Core.Option.{Option, none, some}
pub use mathlib.Core.List.{List, [], ◌∷◌, ◌++◌, map, append-nil, append_assoc}
pub use native.Mathlib.Omega.{arith}
pub use text.Mathlib.Text.{◌==◌}
pub use text.Mathlib.TextEquality.{eq_iff}
pub use text.Mathlib.TextPositions.{eq_refl}
