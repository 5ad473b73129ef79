-- ===== src/Filter/Ops/Count.antt =====
-- The bit counts of ops.go: the loop of `popcnt`, and the ones of combined arrays.
use bloom_filter_jyy_0098_go.Base.{
  ℕ, zero, suc, ◌+◌, ◌*◌, ◌/◌, ◌%◌, ◌<◌, ◌≡◌, refl, List, [], ◌∷◌, length, arith, true, All, IsByte,
  Option, none, some, ap, bit_and, bit_or, bit_xor, bit_and_step, bit_or_step, bit_xor_step,
  agree_below, agree_below-eq,
}
use bloom_filter_jyy_0098_go.Filter.Ops.{popcnt_loop, popcnt, count_bytes}
use bloom_filter_jyy_0098_go.Filter.Ops.Bytes.{zip_with}

-- The number of ones among the lowest n binary digits.
unfoldable pub ones : ℕ → ℕ → ℕ
ones zero b = 0
ones (suc n) b = b % 2 + ones n (b / 2)

-- The count, plus one, with which the loop ends; 0 stands for a loop that does not.
ended : ℕ → ℕ
unfolding popcnt_loop
ended b = elim (popcnt_loop (suc b) b 0) [ none ↦ 0 | some count ↦ suc count ]

ended_table : agree_below ended (λ b. suc (ones 8 b)) 256 ≡ true
unfolding agree_below ended ones
ended_table = refl

some_of : (r : Option ℕ) (n : ℕ) → elim r [ none ↦ 0 | some count ↦ suc count ] ≡ suc n → r ≡ some n
some_of none n e = absurd (omega (arith, e))
some_of (some c) n e = ap some (omega (arith, e))

-- On a byte, the loop over `b & (b - 1)` ends after at most b rounds, with the number of the byte's
-- ones.
pub popcnt_loop-eq-ones : (b : ℕ) → b < 256 → popcnt_loop (suc b) b 0 ≡ some (ones 8 b)
unfolding ended
popcnt_loop-eq-ones b h =
    some_of (popcnt_loop (suc b) b 0) (ones 8 b)
      (agree_below-eq ended (λ b. suc (ones 8 b)) 256 h ended_table)

pub popcnt-eq-ones : (b : ℕ) → b < 256 → popcnt b ≡ ones 8 b
unfolding popcnt
popcnt-eq-ones b h = rw (popcnt, popcnt_loop-eq-ones b h) refl

ones-or_and : (n a b : ℕ) → ones n (bit_or a b) + ones n (bit_and a b) ≡ ones n a + ones n b
unfolding ones
ones-or_and zero a b = refl
ones-or_and (suc n) a b =
    let o : bit_or a b / 2 ≡ bit_or (a / 2) (b / 2) = omega (arith, bit_or_step a b) in
    let c : bit_and a b / 2 ≡ bit_and (a / 2) (b / 2) = omega (arith, bit_and_step a b) in
    rw (o, c) (omega (arith, bit_or_step a b, bit_and_step a b, ones-or_and n (a / 2) (b / 2)))

ones-xor_and : (n a b : ℕ) → ones n (bit_xor a b) + 2 * ones n (bit_and a b) ≡ ones n a + ones n b
unfolding ones
ones-xor_and zero a b = refl
ones-xor_and (suc n) a b =
    let o : bit_xor a b / 2 ≡ bit_xor (a / 2) (b / 2) = omega (arith, bit_xor_step a b) in
    let c : bit_and a b / 2 ≡ bit_and (a / 2) (b / 2) = omega (arith, bit_and_step a b) in
    rw (o, c) (omega (arith, bit_xor_step a b, bit_and_step a b, ones-xor_and n (a / 2) (b / 2)))

-- The number of ones of a slice.
unfoldable pub weight : List ℕ → ℕ
weight [] = 0
weight (b ∷ bs) = ones 8 b + weight bs

pub count_bytes-eq-weight :
    (bs : List ℕ) (count : ℕ) → All IsByte bs → count_bytes bs count ≡ count + weight bs
unfolding count_bytes weight
count_bytes-eq-weight [] count h = omega arith
count_bytes-eq-weight (b ∷ bs) count h =
    omega (arith, popcnt-eq-ones b h.0, count_bytes-eq-weight bs (count + popcnt b) h.1)

pub weight-or_and :
    (xs ys : List ℕ)
    → length xs ≡ length ys
    → weight (zip_with bit_or xs ys) + weight (zip_with bit_and xs ys) ≡ weight xs + weight ys
unfolding weight zip_with
weight-or_and [] [] e = refl
weight-or_and [] (y ∷ ys) e = absurd (omega arith)
weight-or_and (x ∷ xs) [] e = absurd (omega arith)
weight-or_and (x ∷ xs) (y ∷ ys) e =
    omega (arith, ones-or_and 8 x y, weight-or_and xs ys (omega arith))

pub weight-xor_and :
    (xs ys : List ℕ)
    → length xs ≡ length ys
    → weight (zip_with bit_xor xs ys) + 2 * weight (zip_with bit_and xs ys) ≡ weight xs + weight ys
unfolding weight zip_with
weight-xor_and [] [] e = refl
weight-xor_and [] (y ∷ ys) e = absurd (omega arith)
weight-xor_and (x ∷ xs) [] e = absurd (omega arith)
weight-xor_and (x ∷ xs) (y ∷ ys) e =
    omega (arith, ones-xor_and 8 x y, weight-xor_and xs ys (omega arith))
