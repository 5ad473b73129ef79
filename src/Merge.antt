-- ===== src/Merge.antt =====
-- internal/merge/merge.go: combinations of filters that leave their arguments alone. A filter
-- pointer that may be nil is an `Option`.
pub mod Agrees
pub mod Many
pub mod Distance
pub mod Estimates
pub mod Overlap
mod Tests
use bloom_filter_jyy_0098_go.Base.{
  ℕ, ◌+◌, Bool, ◌||◌, Option, none, some, List, [], ◌∷◌, bit_and, bit_or, bit_xor, bit_clear,
  Result, ok, err, panic, ◌>>=◌, map_err, if◌then◌else◌, not, ◌==◌,
}
use bloom_filter_jyy_0098_go.Filter.{BloomFilter, FilterError, new_from_parts}
use bloom_filter_jyy_0098_go.Filter.Ops.{mismatch, zip_bytes, popcnt}

-- `from_filter` is an error that `filter.NewFromParts` returned.
pub data MergeError : Type 0 where
  nil_filter param_mismatch empty_list : MergeError
  from_filter : FilterError → MergeError

-- The shape that `Union`, `Intersection` and `Difference` share.
unfoldable pub merge_two :
    (ℕ → ℕ → ℕ) → Option BloomFilter → Option BloomFilter → Result MergeError BloomFilter
unfolding mismatch zip_bytes new_from_parts
merge_two op none b = err nil_filter
merge_two op (some a) none = err nil_filter
merge_two op (some a) (some b) =
    if mismatch a b
    then err param_mismatch
    else do merged ← zip_bytes op a.bits b.bits; map_err from_filter (new_from_parts a.m a.k merged)

unfoldable pub union : Option BloomFilter → Option BloomFilter → Result MergeError BloomFilter
unfolding merge_two
union = merge_two bit_or

unfoldable pub intersection :
    Option BloomFilter → Option BloomFilter → Result MergeError BloomFilter
unfolding merge_two
intersection = merge_two bit_and

unfoldable pub difference : Option BloomFilter → Option BloomFilter → Result MergeError BloomFilter
unfolding merge_two
difference = merge_two bit_clear

-- The loop of `UnionMany` and `IntersectionMany` over the filters after the first.
many_loop : (ℕ → ℕ → ℕ) → ℕ → ℕ → List ℕ → List (Option BloomFilter) → Result MergeError (List ℕ)
many_loop op m k merged [] = ok merged
many_loop op m k merged (none ∷ fs) = err nil_filter
many_loop op m k merged (some f ∷ fs) =
    if not (f.m == m) || not (f.k == k)
    then err param_mismatch
    else do merged' ← zip_bytes op merged f.bits; many_loop op m k merged' fs

unfoldable pub merge_many : (ℕ → ℕ → ℕ) → List (Option BloomFilter) → Result MergeError BloomFilter
unfolding many_loop zip_bytes new_from_parts
merge_many op [] = err empty_list
merge_many op (none ∷ fs) = err nil_filter
merge_many op (some f ∷ fs) = do
  merged ← many_loop op f.m f.k f.bits fs
  map_err from_filter (new_from_parts f.m f.k merged)

unfoldable pub union_many : List (Option BloomFilter) → Result MergeError BloomFilter
unfolding merge_many
union_many = merge_many bit_or

unfoldable pub intersection_many : List (Option BloomFilter) → Result MergeError BloomFilter
unfolding merge_many
intersection_many = merge_many bit_and

-- `popcount` is the loop that ops.go names `popcnt`.
unfoldable pub popcount : ℕ → ℕ
unfolding popcnt
popcount b = popcnt b

-- `for i := range xs { dist += popcount(xs[i] ^ ys[i]) }`
distance_loop : List ℕ → List ℕ → ℕ → Result MergeError ℕ
distance_loop [] ys dist = ok dist
distance_loop (x ∷ xs) [] dist = panic
distance_loop (x ∷ xs) (y ∷ ys) dist = distance_loop xs ys (dist + popcount (bit_xor x y))

unfoldable pub hamming_distance : Option BloomFilter → Option BloomFilter → Result MergeError ℕ
unfolding mismatch distance_loop popcount
hamming_distance none b = err nil_filter
hamming_distance (some a) none = err nil_filter
hamming_distance (some a) (some b) =
    if mismatch a b then err param_mismatch else distance_loop a.bits b.bits 0
