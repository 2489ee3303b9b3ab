-- ===== src/Shared.antt =====
-- Names shared by the modules that model the management console: the libraries', passed on, and
-- those of the children.
pub mod Tests
pub mod Lists
pub mod Texts
pub mod Splits
pub mod Dicts
pub mod Decimal
pub mod Ints
pub mod ParseInt
unfoldable pub use Tests.*
unfoldable pub use Lists.*
unfoldable pub use Texts.*
unfoldable pub use Splits.*
unfoldable pub use Dicts.*
unfoldable pub use Decimal.*
unfoldable pub use Ints.*
pub use ParseInt.*
pub use Prim.Native.Nat.{ℕ, zero, suc, ◌+◌, ◌-◌, ◌*◌, ◌/◌, ◌%◌, ◌^◌, ◌≤◌, ◌<◌, min, max}
pub use mathlib.Core.Path.{◌≡◌, refl, sym, ap, ◌∙◌, subst}
pub use mathlib.Core.Logic.{◌≢◌, ◌↔◌, ◌⊎◌, inl, inr}
pub use mathlib.Core.Bool.{Bool, true, false, not, ◌&&◌, ◌||◌}
pub use mathlib.Core.Option.{Option, none, some}
pub use mathlib.Core.List.{List, [], ◌∷◌, ◌++◌, append-nil, append_assoc, map-append}
unfoldable pub use mathlib.Core.List.{map, flat_map}
pub use native.Mathlib.Omega.{arith}
