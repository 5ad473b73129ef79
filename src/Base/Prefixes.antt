-- ===== src/Base/Prefixes.antt =====
-- Prefixes of concatenated slices.
use Prim.Native.Nat.{◌+◌, ◌<◌, ℕ, zero, suc, ◌-◌, ◌≤◌}
use mathlib.Core.Path.{◌≡◌, refl, ap}
use mathlib.Core.List.{List, [], ◌∷◌, ◌++◌}
use native.Mathlib.Omega.{arith}
use bloom_filter_jyy_0098_go.Base.Lists.{length, take, drop, get_or}

module _ {ℓ} {A : Type ℓ} where
  pub take_within : (n : ℕ) (xs ys : List A) → n ≤ length xs → take n (xs ++ ys) ≡ take n xs
  take_within zero xs ys h = refl
  take_within (suc n) [] ys h = absurd (omega arith)
  take_within (suc n) (x ∷ xs) ys h = ap (◌∷◌ x) (take_within n xs ys (omega arith))

  pub take_beyond :
      (n : ℕ) (xs ys : List A) → length xs ≤ n → take n (xs ++ ys) ≡ xs ++ take (n - length xs) ys
  take_beyond n [] ys h = let e : n - 0 ≡ n = omega arith in rw e
  take_beyond zero (x ∷ xs) ys h = absurd (omega arith)
  take_beyond (suc n) (x ∷ xs) ys h =
      let e : suc n - suc (length xs) ≡ n - length xs = omega arith in
      rw e (ap (◌∷◌ x) (take_beyond n xs ys (omega arith)))

  pub take_nil : (n : ℕ) → ◌≡◌ {A = List A} (take n []) []
  take_nil zero = refl
  take_nil (suc n) = refl

  pub take-add : (i j : ℕ) (xs : List A) → take (i + j) xs ≡ take i xs ++ take j (drop i xs)
  take-add zero j xs = let e : 0 + j ≡ j = omega arith in rw e refl
  take-add (suc i) j [] = let e : suc i + j ≡ suc (i + j) = omega arith in rw (e, take_nil j) refl
  take-add (suc i) j (x ∷ xs) =
      let e : suc i + j ≡ suc (i + j) = omega arith in rw e (ap (◌∷◌ x) (take-add i j xs))

  -- `xs[i:i+1]`
  pub take_one :
      (i : ℕ) (xs : List A) (d : A) → i < length xs → take 1 (drop i xs) ≡ get_or xs i d ∷ []
  take_one i [] d h = absurd (omega arith)
  take_one zero (x ∷ xs) d h = refl
  take_one (suc i) (x ∷ xs) d h = take_one i xs d (omega arith)
