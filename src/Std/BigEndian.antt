-- ===== src/Std/BigEndian.antt =====
-- encoding/binary, BigEndian: the most significant byte comes first. In Go a read of a slice that
-- is too short panics; the program checks the length before each read, and here it is 0.
use bloom_filter_jyy_0098_go.Base.{
  take, ◌≤◌, ℕ, ◌+◌, ◌*◌, ◌/◌, ◌%◌, ◌^◌, ◌<◌, ◌≡◌, refl, List, [], ◌∷◌, ◌++◌, length, arith, IsByte,
  All,
}

unfoldable pub put_uint32 : ℕ → List ℕ
put_uint32 v = v / 2 ^ 24 % 256 ∷ v / 2 ^ 16 % 256 ∷ v / 2 ^ 8 % 256 ∷ v % 256 ∷ []

unfoldable pub uint32 : List ℕ → ℕ
uint32 (a ∷ b ∷ c ∷ d ∷ _) = a * 2 ^ 24 + b * 2 ^ 16 + c * 2 ^ 8 + d
uint32 _ = 0

unfoldable pub put_uint64 : ℕ → List ℕ
unfolding put_uint32
put_uint64 v = put_uint32 (v / 2 ^ 32) ++ put_uint32 v

unfoldable pub uint64 : List ℕ → ℕ
uint64 (a ∷ b ∷ c ∷ d ∷ e ∷ f ∷ g ∷ h ∷ _) =
    a * 2 ^ 56 + b * 2 ^ 48 + c * 2 ^ 40 + d * 2 ^ 32 + e * 2 ^ 24 + f * 2 ^ 16 + g * 2 ^ 8 + h
uint64 _ = 0

pub uint32-put_uint32 : (v : ℕ) (rest : List ℕ) → v < 2 ^ 32 → uint32 (put_uint32 v ++ rest) ≡ v
unfolding put_uint32 uint32
uint32-put_uint32 v rest h = omega arith

pub uint64-put_uint64 : (v : ℕ) (rest : List ℕ) → v < 2 ^ 64 → uint64 (put_uint64 v ++ rest) ≡ v
unfolding put_uint64 uint64
uint64-put_uint64 v rest h = omega arith

pub length-put_uint32 : (v : ℕ) → length (put_uint32 v) ≡ 4
unfolding put_uint32
length-put_uint32 v = refl

pub length-put_uint64 : (v : ℕ) → length (put_uint64 v) ≡ 8
unfolding put_uint64
length-put_uint64 v = refl

pub put_uint32-IsByte : (v : ℕ) → All IsByte (put_uint32 v)
unfolding put_uint32
put_uint32-IsByte v = omega arith

pub uint32-lt : (b : List ℕ) → All IsByte b → uint32 b < 2 ^ 32
unfolding uint32
uint32-lt (a ∷ b ∷ c ∷ d ∷ r) h = omega arith
uint32-lt _ h = omega arith

-- Four bytes are the number that they are read as.
pub put_uint32-uint32 :
    (b : List ℕ) → All IsByte b → 4 ≤ length b → put_uint32 (uint32 (take 4 b)) ≡ take 4 b
unfolding put_uint32 uint32
put_uint32-uint32 (x ∷ y ∷ z ∷ w ∷ r) h e =
    let n = x * 2 ^ 24 + y * 2 ^ 16 + z * 2 ^ 8 + w in
    let first : n / 2 ^ 24 % 256 ≡ x = omega (arith, h) in
    let second : n / 2 ^ 16 % 256 ≡ y = omega (arith, h) in
    let third : n / 2 ^ 8 % 256 ≡ z = omega (arith, h) in
    let fourth : n % 256 ≡ w = omega (arith, h) in ground (arith, first, second, third, fourth)
put_uint32-uint32 _ h e = absurd (omega arith)
