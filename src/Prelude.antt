-- ===== src/Prelude.antt =====
-- The names that the modules of the library share: the libraries', passed on, and those of the
-- children (tests on numbers, lists over the native numbers, machine words).
pub mod Tests
mod Lists
mod Words
mod Int
mod Text
mod Decimal
mod Options
pub use Tests.*
pub use Lists.*
pub use Words.*
pub use Int.*
pub use Text.*
pub use Decimal.*
pub use Options.*
pub use Prim.Native.Nat.{ℕ, zero, suc, ◌+◌, ◌-◌, ◌*◌, ◌/◌, ◌%◌, ◌^◌, ◌≤◌, ◌<◌, min}
pub use mathlib.Core.Path.{◌≡◌, refl, sym, ap, ◌∙◌, subst, ◌≡⟨◌⟩◌, ◌∎}
pub use mathlib.Core.Logic.{◌≢◌, ◌↔◌, ◌⊎◌, inl, inr}
pub use mathlib.Core.Bool.{Bool, true, false, not, ◌&&◌, ◌||◌}
pub use mathlib.Core.Option.{Option, none, some}
pub use mathlib.Core.List.{List, [], ◌∷◌, ◌++◌, map, append-nil, append_assoc}
pub use native.Mathlib.Omega.{arith}
