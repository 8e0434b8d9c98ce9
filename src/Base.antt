-- ===== src/Base.antt =====
-- Names that the modules share: the libraries', passed on, and those of the children: Boolean
-- tests (Tests), sequences over the native numbers (Lists), arrays and tables (Arrays).
mod Tests
mod Lists
mod Arrays
mod Loops
mod Scan
mod Integers
pub use Tests.*
pub use Lists.*
pub use Arrays.*
pub use Integers.*
unfoldable pub use Loops.{for_upto}
pub use Loops.{for_upto_inv}
unfoldable pub use Scan.{find_first}
pub use Scan.{Finds, find_first-Finds, each, each-at}
pub use Prim.Native.Nat.{ℕ, zero, suc, ◌+◌, ◌-◌, ◌*◌, ◌/◌, ◌%◌, ◌^◌, ◌≤◌, ◌<◌}
pub use mathlib.Core.Path.{◌≡◌, refl, sym, ap, ◌∙◌, fun_ext}
pub use mathlib.Core.Logic.{◌≢◌, ◌↔◌, ◌⊎◌, inl, inr}
pub use mathlib.Core.Bool.{Bool, true, false, not, ◌&&◌, ◌||◌}
pub use mathlib.Core.Option.{Option, none, some}
pub use mathlib.Core.List.{List, [], ◌∷◌, ◌++◌, map}
pub use native.Mathlib.Omega.{arith}
unfoldable pub use native.Mathlib.Decide.{dec_lt, dec_le, ℕ_discrete}
pub use mathlib.Core.Logic.{ite}
pub use mathlib.Core.Path.{subst, subst₂}
