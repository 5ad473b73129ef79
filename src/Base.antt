-- ===== src/Base.antt =====
-- The names that every component shares: the libraries', passed on, and the helpers of the
-- children. `Tests` has Boolean tests and case splits, `Words` Go's unsigned integers, `Lists`
-- slices, `Prefixes` their prefixes, `Outcome` what a call does, `Bits` the bit operations, and `Tables` checks over all bytes.
mod Tests
mod Words
mod Lists
mod Prefixes
mod Outcome
mod Bits
mod Tables
pub use Tests.*
pub use Words.*
pub use Lists.*
pub use Prefixes.*
pub use Outcome.*
unfoldable pub use Bits.*
unfoldable pub use Tables.*
pub use Prim.Native.Nat.{ℕ, zero, suc, ◌+◌, ◌-◌, ◌*◌, ◌/◌, ◌%◌, ◌^◌, ◌≤◌, ◌<◌, min, max}
pub use Prim.Native.Nat.{bit_and, bit_or, bit_xor}
pub use mathlib.Core.Path.{◌≡◌, refl, sym, ap, ap₂, ◌∙◌, subst}
pub use mathlib.Core.Logic.{◌≢◌, ◌↔◌, ◌⊎◌, inl, inr}
pub use mathlib.Core.Bool.{Bool, true, false, not, ◌&&◌, ◌||◌}
pub use mathlib.Core.Option.{Option, none, some}
pub use mathlib.Core.List.{List, [], ◌∷◌, ◌++◌, map, append_assoc, append-nil}
pub use native.Mathlib.Omega.{arith}
