-- ===== src/Base/Bits/Step.antt =====
-- The native bit operations mean `bitwise`, a recursion on binary digits with fuel. Here the fuel
-- is dropped: one equation for the lowest digit.
use Prim.Native.Nat.{
  ℕ, zero, suc, ◌+◌, ◌-◌, ◌*◌, ◌/◌, ◌%◌, ◌≤◌, ◌<◌, min, max, digits, bitwise, differ,
}
use Prim.Native.Nat.{bit_and, bit_or, bit_xor, bit_and-bitwise, bit_or-bitwise, bit_xor-bitwise}
use mathlib.Core.Path.{◌≡◌, refl, sym, ap, ◌∙◌}
use native.Mathlib.Omega.{arith}

-- exclusive or of two binary digits
differ_digits : (x y : ℕ) → x < 2 → y < 2 → differ x y ≡ (x + y) % 2
differ_digits zero y p q = omega arith
differ_digits (suc zero) zero p q = refl
differ_digits (suc zero) (suc zero) p q = refl
differ_digits (suc zero) (suc (suc y)) p q = absurd (omega arith)
differ_digits (suc (suc x)) y p q = absurd (omega arith)

-- The recursion `digits`, on the fuel that it needs and on more.
module _ (z : ℕ → ℕ) (f : ℕ → ℕ → ℕ) where
  digits_one_more : (fuel x y : ℕ) → x ≤ fuel → digits z f (suc fuel) x y ≡ digits z f fuel x y
  digits_one_more zero zero y h = refl
  digits_one_more zero (suc x) y h = absurd (omega arith)
  digits_one_more (suc fuel) zero y h = refl
  digits_one_more (suc fuel) (suc x) y h =
      rw (digits_one_more fuel (suc x / 2) (y / 2) (omega arith))

  digits_extra :
      (extra fuel x y : ℕ) → x ≤ fuel → digits z f (extra + fuel) x y ≡ digits z f fuel x y
  digits_extra zero fuel x y h = let e : 0 + fuel ≡ fuel = omega arith in rw e
  digits_extra (suc extra) fuel x y h =
      let e : suc extra + fuel ≡ suc (extra + fuel) = omega arith in
      rw e (digits_one_more (extra + fuel) x y (omega arith) ∙ digits_extra extra fuel x y h)

  -- The lowest digit of any operation that `bitwise` describes.
  lowest_digit :
      (op : ℕ → ℕ → ℕ)
      → ((x y : ℕ) → op x y ≡ bitwise z f x y)
      → ((y : ℕ) → z y ≡ z (y / 2) * 2 + f 0 (y % 2))
      → (x y : ℕ) → op x y ≡ op (x / 2) (y / 2) * 2 + f (x % 2) (y % 2)
  lowest_digit op means base zero y = omega (arith, means 0 y, means 0 (y / 2), base y)
  lowest_digit op means base (suc x) y =
      let half = suc x / 2 in
      let e : (x - half) + half ≡ x = omega arith in
      let same : digits z f x half (y / 2) ≡ digits z f half half (y / 2) =
        sym (ap (λ n. digits z f n half (y / 2)) e)
        ∙ digits_extra (x - half) half half (y / 2) (omega arith) in
      omega (arith, means (suc x) y, means half (y / 2), same)

pub bit_or_step : (a b : ℕ) → bit_or a b ≡ bit_or (a / 2) (b / 2) * 2 + max (a % 2) (b % 2)
bit_or_step = lowest_digit (λ y. y) max bit_or bit_or-bitwise (λ y. omega arith)

pub bit_xor_step : (a b : ℕ) → bit_xor a b ≡ bit_xor (a / 2) (b / 2) * 2 + (a % 2 + b % 2) % 2
bit_xor_step a b = omega (
  arith,
  lowest_digit (λ y. y) differ bit_xor bit_xor-bitwise
      (λ y. omega (arith, differ_digits 0 (y % 2) (omega arith) (omega arith))) a b,
  differ_digits (a % 2) (b % 2) (omega arith) (omega arith),
)

pub bit_and_step : (a b : ℕ) → bit_and a b ≡ bit_and (a / 2) (b / 2) * 2 + min (a % 2) (b % 2)
bit_and_step = lowest_digit (λ y. 0) min bit_and bit_and-bitwise (λ y. omega arith)
