-- ===== src/Base/Tables.antt =====
-- Two functions that agree on a range, checked by evaluation.
use Prim.Native.Nat.{ℕ, zero, suc, ◌<◌}
use mathlib.Core.Path.{◌≡◌}
use mathlib.Core.Bool.{Bool, true, false}
use native.Mathlib.Omega.{arith}
use bloom_filter_jyy_0098_go.Base.Tests.{◌==◌, if◌then◌else◌, ==_iff}

unfoldable pub agree_below : (ℕ → ℕ) → (ℕ → ℕ) → ℕ → Bool
agree_below f g zero = true
agree_below f g (suc n) = let rest = agree_below f g n in if f n == g n then rest else false

pub agree_below-eq : (f g : ℕ → ℕ) (n : ℕ) {b : ℕ} → b < n → agree_below f g n ≡ true → f b ≡ g b
unfolding agree_below
agree_below-eq f g zero small table = absurd (omega arith)
agree_below-eq f g (suc n) {b} small table =
    ground (arith, agree_below-eq f g n {b = b}, ==_iff (f n) (g n))
