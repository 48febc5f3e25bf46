-- ===== src/Common.antt =====
-- What every part shares: the library's names passed on, Boolean tests, lists, sets and
-- dictionaries with text keys, exceptions and stateful actions.
mod Tests
mod Lists
mod Sets
mod Actions
mod Constructors
mod Integers
pub mod Keeps
pub mod Cases
pub mod Dict
unfoldable pub use Tests.*
unfoldable pub use Integers.*
unfoldable pub use Lists.*
unfoldable pub use Sets.*
unfoldable pub use Actions.*
unfoldable pub use Constructors.*
pub use Prim.Native.Nat.{ℕ, zero, suc, ◌+◌, ◌-◌, ◌*◌, ◌≤◌, ◌<◌}
pub use Prim.Native.String.{String, ◌++◌ as concat}
pub use mathlib.Core.Path.{◌≡◌, refl, sym, ap, ◌∙◌, subst}
pub use mathlib.Core.Logic.{◌≢◌, ◌↔◌, ◌⊎◌, inl, inr}
pub use mathlib.Core.Bool.{Bool, true, false, not, ◌&&◌, ◌||◌, false≢true}
pub use mathlib.Core.Option.{Option, none, some}
pub use mathlib.Core.List.{List, [], ◌∷◌, ◌++◌, map, append_assoc, append-nil}
pub use native.Mathlib.Omega.{arith}
pub use text.Mathlib.Text.{◌==◌}
pub use text.Mathlib.TextEquality.{eq_iff}
pub use text.Mathlib.TextPositions.{eq_refl}
