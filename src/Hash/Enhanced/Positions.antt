-- ===== src/Hash/Enhanced/Positions.antt =====
-- The indices of the hash strategies: their range and number.
use bloom_filter_jyy_0098_go.Base.{
  ℕ, zero, suc, ◌+◌, ◌<◌, ◌≡◌, refl, List, length, get_or, arith, All, ap, ◌∙◌,
}
use bloom_filter_jyy_0098_go.Hash.Bounds.{hash-lt}
use bloom_filter_jyy_0098_go.Hash.Murmur3.{murmur3_hash}
use bloom_filter_jyy_0098_go.Hash.Enhanced.{
  Strategy, fnv, murmur3, enhanced_double, triple, hash_with_strategy, enhanced_double_hash,
  triple_hash, multi_hash, multi_loop, independent_hashes, independent_loop,
}

-- Under each strategy the index is below the number of bits.
pub hash_with_strategy-lt :
    (item : List ℕ) (i m : ℕ) (s : Strategy) → 0 < m → hash_with_strategy item i m s < m
unfolding hash_with_strategy enhanced_double_hash triple_hash murmur3_hash
hash_with_strategy-lt item i m fnv h = hash-lt item i m h
hash_with_strategy-lt item i m murmur3 h = ground arith
hash_with_strategy-lt item i m enhanced_double h = ground arith
hash_with_strategy-lt item i m triple h = ground arith

length-multi_loop :
    (item : List ℕ) (m : ℕ) (s : Strategy) (left i : ℕ) → length (multi_loop item m s left i) ≡ left
unfolding multi_loop
length-multi_loop item m s zero i = refl
length-multi_loop item m s (suc left) i = ap suc (length-multi_loop item m s left (i + 1))

get_or-multi_loop :
    (item : List ℕ) (m : ℕ) (s : Strategy) (left i j : ℕ)
    → j < left
    → get_or (multi_loop item m s left i) j 0 ≡ hash_with_strategy item (i + j) m s
unfolding multi_loop
get_or-multi_loop item m s zero i j h = absurd (omega arith)
get_or-multi_loop item m s (suc left) i zero h =
    ap (λ n. hash_with_strategy item n m s) (omega arith)
get_or-multi_loop item m s (suc left) i (suc j) h =
    get_or-multi_loop item m s left (i + 1) j (omega arith)
    ∙ ap (λ n. hash_with_strategy item n m s) (omega arith)

-- `MultiHash` returns k indices of a filter with bits, and the one at place j is what
-- `HashWithStrategy` gives for j, which is below the number of bits.
pub multi_hash-eq-hash_with_strategy :
    (item : List ℕ) (k m j : ℕ) (s : Strategy)
    → 0 < m
    → j < k
    → (length (multi_hash item k m s) ≡ k)
      × (get_or (multi_hash item k m s) j 0 ≡ hash_with_strategy item j m s)
      × (get_or (multi_hash item k m s) j 0 < m)
unfolding multi_hash
multi_hash-eq-hash_with_strategy item k m j s h b =
    let at : get_or (multi_loop item m s k 0) j 0 ≡ hash_with_strategy item j m s =
      get_or-multi_loop item m s k 0 j b ∙ ap (λ n. hash_with_strategy item n m s) (omega arith) in
    ground (arith, at, length-multi_loop item m s k 0, hash_with_strategy-lt item j m s h)

independent_loop-lt :
    (item : List ℕ) (m left i : ℕ)
    → 0 < m
    → All (λ p. p < m) (independent_loop item m left i)
      × (length (independent_loop item m left i) ≡ left)
unfolding independent_loop
independent_loop-lt item m zero i h = (tt, refl)
independent_loop-lt item m (suc left) i h =
    let rest = independent_loop-lt item m left (i + 1) h in ((omega arith, rest.0), ap suc rest.1)

independent_hashes-eq-loop :
    (item : List ℕ) (k m : ℕ) → 0 < m → independent_hashes item k m ≡ independent_loop item m k 0
unfolding independent_hashes independent_loop
independent_hashes-eq-loop item zero m h = ground arith
independent_hashes-eq-loop item (suc k) m h = ground arith

-- `IndependentHashes` returns k indices, all below the number of bits, if there are any bits.
pub independent_hashes-lt :
    (item : List ℕ) (k m : ℕ)
    → 0 < m
    → All (λ p. p < m) (independent_hashes item k m) × (length (independent_hashes item k m) ≡ k)
independent_hashes-lt item k m h =
    rw (independent_hashes-eq-loop item k m h) (independent_loop-lt item m k 0 h)
