-- ===== src/Base.antt =====
-- The names that every module of the library shares: the libraries', passed on, the Boolean tests of
-- the C++ conditions, vectors with native indices, and byte strings.
mod Tests
mod Lists
mod Text
mod Fault
mod Int
mod Relation
pub use Tests.*
pub use Lists.*
pub use Text.*
pub use Fault.*
pub use Int.*
pub use Relation.*
pub use Prim.Native.Nat.{ℕ, zero, suc, ◌+◌, ◌-◌, ◌*◌, ◌/◌, ◌%◌, ◌^◌, ◌≤◌, ◌<◌, min}
pub use mathlib.Core.Path.{◌≡◌, refl, sym, ap, ap₂, ◌∙◌, ◌≡⟨◌⟩◌, ◌∎}
pub use mathlib.Core.Logic.{◌≢◌, ◌↔◌, ◌⊎◌, inl, inr}
pub use mathlib.Core.Bool.{Bool, true, false, not, ◌&&◌, ◌||◌}
pub use mathlib.Core.Option.{Option, none, some}
pub use mathlib.Core.List.{List, [], ◌∷◌, ◌++◌, map, append-nil, append_assoc}
pub use native.Mathlib.Omega.{arith}
