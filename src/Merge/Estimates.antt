-- ===== src/Merge/Estimates.antt =====
-- The estimates of internal/merge/merge.go: how similar two filters are, and how many items they
-- hold together. An int is kept as its 64 bits.
use bloom_filter_jyy_0098_go.Base.{
  ℕ, ◌+◌, ◌^◌, Option, none, some, List, [], ◌∷◌, bit_and, bit_or, u64, int_lt, ◌==◌, if◌then◌else◌,
  Result, ok, err, panic, ◌>>=◌, ◌-◌,
}
use bloom_filter_jyy_0098_go.Float.{Floats}
use bloom_filter_jyy_0098_go.Filter.{BloomFilter}
use bloom_filter_jyy_0098_go.Filter.Ops.{mismatch, count_bytes}
use bloom_filter_jyy_0098_go.Merge.{MergeError, nil_filter, param_mismatch, popcount, union}

-- The loop of `Similarity`: the ones of both slices' conjunctions and disjunctions.
unfoldable pub overlap_loop : List ℕ → List ℕ → ℕ → ℕ → Result MergeError (ℕ × ℕ)
unfolding popcount
overlap_loop [] ys ands ors = ok (ands, ors)
overlap_loop (x ∷ xs) [] ands ors = panic
overlap_loop (x ∷ xs) (y ∷ ys) ands ors =
    overlap_loop xs ys (ands + popcount (bit_and x y)) (ors + popcount (bit_or x y))

module _ (fl : Floats) where
  open fl use {F}

  -- The end of `Similarity`.
  abbrev pub ratio : ℕ × ℕ → F
  ratio counts =
      if counts.1 == 0 then fl.decimal 0 0 else fl.div (fl.of_int counts.0) (fl.of_int counts.1)

  unfoldable pub similarity : Option BloomFilter → Option BloomFilter → Result MergeError F
  unfolding mismatch overlap_loop
  similarity none b = err nil_filter
  similarity (some a) none = err nil_filter
  similarity (some a) (some b) =
      if mismatch a b
      then err param_mismatch
      else do counts ← overlap_loop a.bits b.bits 0 0; ok (ratio counts)

  unfoldable pub estimate_n : ℕ → ℕ → ℕ → ℕ
  estimate_n m k bits_set =
      if bits_set == 0
      then 0
      else let mf = fl.of_uint m in
        let kf = fl.of_uint k in
        let x = fl.of_int bits_set in
        if fl.le mf x
        then fl.to_int (fl.div mf kf)
        else let n =
            fl.mul (fl.neg (fl.div mf kf)) (fl.log (fl.sub (fl.decimal 1 0) (fl.div x mf))) in
          if fl.lt n (fl.decimal 0 0) then 0 else fl.to_int n

  unfoldable pub count_and_estimate : BloomFilter → ℕ
  unfolding estimate_n
  count_and_estimate f = estimate_n f.m f.k (count_bytes f.bits 0)

  unfoldable pub estimate_union_cardinality :
      Option BloomFilter → Option BloomFilter → Result MergeError ℕ
  unfolding count_and_estimate
  estimate_union_cardinality a b = do u ← union a b; ok (count_and_estimate u)

  -- `nA + nB - nUnion`, or 0 if that is negative.
  unfoldable pub shared_n : ℕ → ℕ → ℕ → ℕ
  shared_n n_a n_b n_union =
      let n = u64 (n_a + n_b + (2 ^ 64 - n_union)) in if int_lt n 0 then 0 else n

  unfoldable pub estimate_intersection_cardinality :
      Option BloomFilter → Option BloomFilter → Result MergeError ℕ
  unfolding mismatch estimate_union_cardinality shared_n
  estimate_intersection_cardinality none b = err nil_filter
  estimate_intersection_cardinality (some a) none = err nil_filter
  estimate_intersection_cardinality (some a) (some b) =
      if mismatch a b then err param_mismatch else do
        n_union ← estimate_union_cardinality (some a) (some b)
        ok (shared_n (count_and_estimate a) (count_and_estimate b) n_union)
