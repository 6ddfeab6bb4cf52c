-- ===== src/Prelude.antt =====
-- The names that the other modules share: the libraries', passed on, and those of the children:
-- tests on numbers, equality as an interface, list operations, Python's dict, its texts and its
-- dynamic values.
mod Tests
mod Equality
mod Lists
pub mod Dicts
pub mod Texts
mod Results
pub mod Values
pub mod Sort
pub mod Json
pub mod Orders
pub mod Search
pub use Tests.*
unfoldable pub use Equality.*
unfoldable pub use Lists.*
unfoldable pub use Dicts.*
pub use Results.*
pub use Values.{Value, ℤ}
unfoldable pub use Sort.{sort, text_leb}
pub use Texts.{Text, text, text_beq_iff, strip_idem, strip_solid, IsSolid, All-reverse}
unfoldable pub use Texts.{strip, is_space}
pub use Prim.Native.Nat.{ℕ, zero, suc, ◌+◌, ◌-◌, ◌*◌, ◌/◌, ◌%◌, ◌≤◌, ◌<◌, min, max}
pub use Prim.Native.String.{String}
pub use mathlib.Core.Path.{◌≡◌, refl, sym, ap, ◌∙◌}
pub use mathlib.Core.Logic.{◌≢◌, ◌↔◌, ◌⊎◌, inl, inr}
pub use mathlib.Core.Bool.{Bool, true, false, ◌&&◌, ◌||◌, not}
pub use mathlib.Core.Option.{Option, none, some}
pub use mathlib.Core.List.{List, [], ◌∷◌, ◌++◌, map}
pub use native.Mathlib.Omega.{arith}
