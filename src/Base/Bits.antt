-- ===== src/Base/Bits.antt =====
-- The bit operations, digit by digit: `bit a i` is the bit of weight `2 ^ i`.
mod Step
pub use Step.{bit_or_step, bit_and_step, bit_xor_step}
use Prim.Native.Nat.{ℕ, zero, suc, ◌+◌, ◌-◌, ◌*◌, ◌/◌, ◌%◌, ◌^◌, ◌≤◌, ◌<◌, min, max}
use Prim.Native.Nat.{bit_and, bit_or, bit_xor, bit_and-bitwise}
use mathlib.Core.Path.{◌≡◌, refl, sym, ap, ◌∙◌}
use mathlib.Core.Logic.{◌≢◌}
use mathlib.Core.Bool.{Bool, true, false, not, xor, ◌&&◌, ◌||◌}
use native.Mathlib.Nat.{pow-suc, one-le-pow, pow-le-pow_right}
use native.Mathlib.Decide.{ℕ_discrete}
use native.Mathlib.Omega.{arith}
use bloom_filter_jyy_0098_go.Base.Tests.{◌==◌}

pub bit : ℕ → ℕ → ℕ
bit a zero = a % 2
bit a (suc i) = bit (a / 2) i

pub bit-lt : (a i : ℕ) → bit a i < 2
unfolding bit
bit-lt a zero = omega arith
bit-lt a (suc i) = bit-lt (a / 2) i

pub bit-bit_or : (a b i : ℕ) → bit (bit_or a b) i ≡ max (bit a i) (bit b i)
unfolding bit
bit-bit_or a b zero = omega (arith, bit_or_step a b)
bit-bit_or a b (suc i) =
    let half : bit_or a b / 2 ≡ bit_or (a / 2) (b / 2) = omega (arith, bit_or_step a b) in
    rw half (bit-bit_or (a / 2) (b / 2) i)

pub bit-bit_and : (a b i : ℕ) → bit (bit_and a b) i ≡ min (bit a i) (bit b i)
unfolding bit
bit-bit_and a b zero = omega (arith, bit_and_step a b)
bit-bit_and a b (suc i) =
    let half : bit_and a b / 2 ≡ bit_and (a / 2) (b / 2) = omega (arith, bit_and_step a b) in
    rw half (bit-bit_and (a / 2) (b / 2) i)

pub bit-bit_xor : (a b i : ℕ) → bit (bit_xor a b) i ≡ (bit a i + bit b i) % 2
unfolding bit
bit-bit_xor a b zero = omega (arith, bit_xor_step a b)
bit-bit_xor a b (suc i) =
    let half : bit_xor a b / 2 ≡ bit_xor (a / 2) (b / 2) = omega (arith, bit_xor_step a b) in
    rw half (bit-bit_xor (a / 2) (b / 2) i)

-- Go's `a &^ b`: `a` with the bits of `b` cleared.
unfoldable pub bit_clear : ℕ → ℕ → ℕ
bit_clear a b = bit_xor a (bit_and a b)

pub bit-bit_clear : (a b i : ℕ) → bit (bit_clear a b) i ≡ min (bit a i) (1 - bit b i)
unfolding bit_clear
bit-bit_clear a b i =
    omega (arith, bit-bit_xor a (bit_and a b) i, bit-bit_and a b i, bit-lt a i, bit-lt b i)

bit-zero : (i : ℕ) → bit 0 i ≡ 0
unfolding bit
bit-zero zero = refl
bit-zero (suc i) = bit-zero i

bit-pow_self : (i : ℕ) → bit (2 ^ i) i ≡ 1
unfolding bit
bit-pow_self zero = refl
bit-pow_self (suc i) =
    let half : 2 ^ suc i / 2 ≡ 2 ^ i = omega (arith, pow-suc 2 i) in rw half (bit-pow_self i)

bit-pow_ne : (j i : ℕ) → j ≢ i → bit (2 ^ j) i ≡ 0
unfolding bit
bit-pow_ne zero zero ne = absurd (ne refl)
bit-pow_ne zero (suc i) ne = bit-zero i
bit-pow_ne (suc j) zero ne = omega (arith, pow-suc 2 j)
bit-pow_ne (suc j) (suc i) ne =
    let half : 2 ^ suc j / 2 ≡ 2 ^ j = omega (arith, pow-suc 2 j) in
    rw half (bit-pow_ne j i (λ e. ne (ap suc e)))

bit_and-zero : (n a : ℕ) → a ≤ n → bit_and a 0 ≡ 0
bit_and-zero n zero h = refl
bit_and-zero zero (suc a) h = absurd (omega arith)
bit_and-zero (suc n) (suc a) h =
    omega (arith, bit_and_step (suc a) 0, bit_and-zero n (suc a / 2) (omega arith))

-- Masking with one bit keeps that bit at its weight.
bit_and-pow : (a i : ℕ) → bit_and a (2 ^ i) ≡ bit a i * 2 ^ i
unfolding bit
bit_and-pow a zero = omega (arith, bit_and_step a 1, bit_and-zero (a / 2) (a / 2) (omega arith))
bit_and-pow a (suc i) =
    let half : 2 ^ suc i / 2 ≡ 2 ^ i = omega (arith, pow-suc 2 i) in
    let low : 2 ^ suc i % 2 ≡ 0 = omega (arith, pow-suc 2 i) in
    let rest : bit_and (a / 2) (2 ^ suc i / 2) ≡ bit (a / 2) i * 2 ^ i =
      rw half (bit_and-pow (a / 2) i) in
    omega (
      arith,
      bit_and_step a (2 ^ suc i),
      low,
      rest,
      ap (λ (t : ℕ). bit (a / 2) i * t) (pow-suc 2 i),
    )

-- Go's test `b & (1 << j) != 0`.
unfoldable pub has_bit : ℕ → ℕ → Bool
has_bit b j = not (bit_and b (2 ^ j) == 0)

scaled_test : (x p : ℕ) → x < 2 → 0 < p → not (x * p == 0) ≡ (x == 1)
scaled_test zero p h q = ground arith
scaled_test (suc zero) p h q = ground arith
scaled_test (suc (suc x)) p h q = absurd (omega arith)

pub has_bit-bit : (b j : ℕ) → has_bit b j ≡ (bit b j == 1)
unfolding has_bit
has_bit-bit b j =
    rw (bit_and-pow b j) (scaled_test (bit b j) (2 ^ j) (bit-lt b j) (one-le-pow j 2 (omega arith)))

pub bit-lt-pow : (n a i : ℕ) → a < 2 ^ n → n ≤ i → bit a i ≡ 0
unfolding bit
bit-lt-pow zero a i p q = let z : a ≡ 0 = omega arith in rw z (bit-zero i)
bit-lt-pow (suc n) a zero p q = absurd (omega arith)
bit-lt-pow (suc n) a (suc i) p q = bit-lt-pow n (a / 2) i (omega (arith, pow-suc 2 n)) (omega arith)

pub bit_or-lt : (n a b : ℕ) → a < 2 ^ n → b < 2 ^ n → bit_or a b < 2 ^ n
bit_or-lt zero a b p q =
    let z : a ≡ 0 = omega arith in let y : b ≡ 0 = omega arith in rw (z, y) (omega arith)
bit_or-lt (suc n) a b p q = omega (
  arith,
  bit_or_step a b,
  pow-suc 2 n,
  bit_or-lt n (a / 2) (b / 2) (omega (arith, pow-suc 2 n)) (omega (arith, pow-suc 2 n)),
)

pub bit_and-le : (n a b : ℕ) → a ≤ n → bit_and a b ≤ a
bit_and-le n zero b h = omega (arith, bit_and-bitwise 0 b)
bit_and-le zero (suc a) b h = absurd (omega arith)
bit_and-le (suc n) (suc a) b h =
    omega (arith, bit_and_step (suc a) b, bit_and-le n (suc a / 2) (b / 2) (omega arith))

pub bit_and-lt : (n a b : ℕ) → a < n → bit_and a b < n
bit_and-lt n a b p = omega (arith, bit_and-le a a b (omega arith))

pub bit_xor-lt : (n a b : ℕ) → a < 2 ^ n → b < 2 ^ n → bit_xor a b < 2 ^ n
bit_xor-lt zero a b p q =
    let z : a ≡ 0 = omega arith in let y : b ≡ 0 = omega arith in rw (z, y) (omega arith)
bit_xor-lt (suc n) a b p q = omega (
  arith,
  bit_xor_step a b,
  pow-suc 2 n,
  bit_xor-lt n (a / 2) (b / 2) (omega (arith, pow-suc 2 n)) (omega (arith, pow-suc 2 n)),
)

pub bit_clear-lt : (n a b : ℕ) → a < 2 ^ n → bit_clear a b < 2 ^ n
unfolding bit_clear
bit_clear-lt n a b p = bit_xor-lt n a (bit_and a b) p (bit_and-lt (2 ^ n) a b p)

-- Numbers of n bits with the same bits are equal.
pub bit_ext : (n a b : ℕ) → a < 2 ^ n → b < 2 ^ n → ((i : ℕ) → i < n → bit a i ≡ bit b i) → a ≡ b
unfolding bit
bit_ext zero a b p q h = omega arith
bit_ext (suc n) a b p q h =
    let rest : a / 2 ≡ b / 2 =
      bit_ext n (a / 2) (b / 2) (omega (arith, pow-suc 2 n)) (omega (arith, pow-suc 2 n))
        (λ i r. h (suc i) (omega arith)) in
    let low : a % 2 ≡ b % 2 = h 0 (omega arith) in omega arith

-- The same facts about the Boolean test.
pub has_bit-bit_or : (a b i : ℕ) → has_bit (bit_or a b) i ≡ (has_bit a i || has_bit b i)
has_bit-bit_or a b i =
    rw (has_bit-bit (bit_or a b) i, has_bit-bit a i, has_bit-bit b i)
      (ground (arith, bit-bit_or a b i, bit-lt a i, bit-lt b i))

pub has_bit-bit_and : (a b i : ℕ) → has_bit (bit_and a b) i ≡ (has_bit a i && has_bit b i)
has_bit-bit_and a b i =
    rw (has_bit-bit (bit_and a b) i, has_bit-bit a i, has_bit-bit b i)
      (ground (arith, bit-bit_and a b i, bit-lt a i, bit-lt b i))

pub has_bit-bit_xor : (a b i : ℕ) → has_bit (bit_xor a b) i ≡ xor (has_bit a i) (has_bit b i)
unfolding xor
has_bit-bit_xor a b i =
    rw (has_bit-bit (bit_xor a b) i, has_bit-bit a i, has_bit-bit b i)
      (ground (arith, bit-bit_xor a b i, bit-lt a i, bit-lt b i))

pub has_bit-bit_clear : (a b i : ℕ) → has_bit (bit_clear a b) i ≡ (has_bit a i && not (has_bit b i))
has_bit-bit_clear a b i =
    rw (has_bit-bit (bit_clear a b) i, has_bit-bit a i, has_bit-bit b i)
      (ground (arith, bit-bit_clear a b i, bit-lt a i, bit-lt b i))

pub has_bit-zero : (i : ℕ) → has_bit 0 i ≡ false
has_bit-zero i = rw (has_bit-bit 0 i) (ground (arith, bit-zero i))

pub has_bit-pow : (j i : ℕ) → has_bit (2 ^ j) i ≡ (j == i)
has_bit-pow j i = elim (ℕ_discrete j i) [
  | yes e ↦ rw (has_bit-bit (2 ^ j) i, e) (ground (arith, bit-pow_self i))
  | no ne ↦ rw (has_bit-bit (2 ^ j) i, bit-pow_ne j i ne) (ground arith)
]

-- Bytes with the same eight bits are equal.
pub byte_ext : (a b : ℕ) → a < 256 → b < 256 → ((i : ℕ) → i < 8 → has_bit a i ≡ has_bit b i) → a ≡ b
byte_ext a b p q h =
    bit_ext 8 a b p q
      λ i r. ground (arith, h i r, has_bit-bit a i, has_bit-bit b i, bit-lt a i, bit-lt b i)

-- `1 << j` is a byte for a bit position in a byte.
pub two_pow-lt : (j : ℕ) → j < 8 → 2 ^ j < 256
two_pow-lt j h =
    let top : 2 ^ j ≤ 2 ^ 7 = pow-le-pow_right (omega arith) {j = 7} (omega arith) in
    omega (arith, top)
