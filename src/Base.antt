-- ===== src/Base.antt =====
-- Shared by every module: the library's names, tests and lists over the native numbers, Go's byte
-- strings, maps, times, and the outcome of a call that may block or panic. No code of its own.
pub mod Tests
pub mod Lists
pub mod Text
pub mod Sort
pub mod Decimal
pub mod Map
pub mod Time
pub mod Outcome
pub mod Family
pub use Tests.*
pub use Lists.*
pub use Prim.Native.Nat.{ℕ, zero, suc, ◌+◌, ◌-◌, ◌*◌, ◌/◌, ◌%◌, ◌^◌, ◌≤◌, ◌<◌}
pub use mathlib.Core.Path.{◌≡◌, refl, sym, ap, ◌∙◌, subst, ◌≡⟨◌⟩◌, ◌∎}
pub use mathlib.Core.Logic.{◌≢◌, ◌↔◌, ◌⊎◌, inl, inr}
pub use mathlib.Core.Bool.{Bool, true, false, ◌&&◌, ◌||◌, not}
pub use mathlib.Core.Option.{Option, none, some}
pub use mathlib.Core.List.{List, [], ◌∷◌, ◌++◌, map, foldr, append_assoc, append-nil}
pub use native.Mathlib.Omega.{arith}
