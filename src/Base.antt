-- ===== src/Base.antt =====
-- Shared names: the libraries', passed on, and the helpers of the children: Boolean tests, lists
-- over the native numbers, byte strings, and the result type of fallible code.
mod Tests
mod Lists
mod ByteStrings
mod Utf8
mod Maps
mod Text
mod Fields
mod Decimal
mod Rows
pub use Tests.*
pub use Lists.*
unfoldable pub use ByteStrings.*
unfoldable pub use Maps.*
unfoldable pub use Text.*
unfoldable pub use Fields.*
unfoldable pub use Decimal.*
unfoldable pub use Rows.*
unfoldable pub use Utf8.*
pub use Prim.Native.Nat.{ℕ, zero, suc, ◌+◌, ◌-◌, ◌*◌, ◌/◌, ◌%◌, ◌^◌, ◌≤◌, ◌<◌}
pub use mathlib.Core.Path.{◌≡◌, refl, sym, ap, ◌∙◌}
pub use mathlib.Core.Logic.{◌≢◌, ◌↔◌, ◌⊎◌, inl, inr}
pub use mathlib.Core.Bool.{Bool, true, false, not, ◌&&◌, ◌||◌}
pub use mathlib.Core.Option.{Option, none, some}
pub use mathlib.Core.List.{List, [], ◌∷◌, ◌++◌}
pub use native.Mathlib.Omega.{arith}
