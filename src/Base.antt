-- ===== src/Base.antt =====
-- Names that every other module shares: library names passed on, Boolean tests, lists measured by
-- native numbers, integers for `int` and `long`, byte strings and the results of code that may stop.
mod Tests
mod Lists
mod Int
mod ByteStrings
mod Outcomes
mod Maps
unfoldable pub use Tests.*
unfoldable pub use Lists.*
unfoldable pub use Int.*
unfoldable pub use ByteStrings.*
unfoldable pub use Outcomes.*
unfoldable pub use Maps.*
pub use Prim.Native.Nat.{ℕ, zero, suc, ◌+◌, ◌-◌, ◌*◌, ◌/◌, ◌%◌, ◌^◌, ◌≤◌, ◌<◌}
pub use mathlib.Core.Path.{◌≡◌, refl, sym, ap, ◌∙◌}
pub use mathlib.Core.Logic.{◌≢◌, ◌↔◌, ◌⊎◌, inl, inr}
pub use mathlib.Core.Bool.{Bool, true, false, not, ◌&&◌, ◌||◌}
pub use mathlib.Core.Option.{Option, none, some}
pub use mathlib.Core.List.{List, [], ◌∷◌, ◌++◌, map, append_assoc, append-nil}
pub use native.Mathlib.Omega.{arith}
