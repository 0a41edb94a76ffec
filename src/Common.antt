-- ===== src/Common.antt =====
-- The names that every module shares: the libraries' names passed on, tests on native numbers,
-- lists over native numbers, counted loops and signed integers. Nothing here models code of the
-- repository.
mod Tests
mod Lists
mod Loops
pub mod Int
pub mod Ring
pub mod Bits
unfoldable pub use Tests.*
pub use Lists.*
pub use Loops.{for_up_inv, for_up_cong}
unfoldable pub use Loops.{for_up}
pub use Prim.Native.Nat.{ℕ, zero, suc, ◌+◌, ◌-◌, ◌*◌, ◌/◌, ◌%◌, ◌^◌, ◌≤◌, ◌<◌, min, max}
pub use mathlib.Core.Path.{◌≡◌, refl, sym, ap, ap₂, ◌∙◌, subst, fun_ext}
pub use mathlib.Core.Logic.{◌≢◌, ◌↔◌, ◌⊎◌, inl, inr}
pub use mathlib.Core.Bool.{Bool, true, false, not, ◌&&◌, ◌||◌}
pub use mathlib.Core.Option.{Option, none, some}
pub use mathlib.Core.List.{List, [], ◌∷◌, ◌++◌, map, append-nil, append_assoc}
pub use native.Mathlib.Omega.{arith}
