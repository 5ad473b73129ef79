-- ===== src/Merge/Distance.antt =====
-- `HammingDistance` of merge.go and the counts of set bits.
use bloom_filter_jyy_0098_go.Base.{
  ℕ, ◌+◌, ◌*◌, ◌≡◌, some, List, [], ◌∷◌, arith, ok, bit_xor, bit_and, length, All, IsByte,
  bit_xor-lt,
}
use bloom_filter_jyy_0098_go.Filter.{BloomFilter}
use bloom_filter_jyy_0098_go.Filter.Ops.{popcnt, pop_count, intersection}
use bloom_filter_jyy_0098_go.Filter.Ops.Algebra.{
  Matches, Matches-sized, mismatch-Matches, zipped, zipped-IsCombined, bit_and-Bitwise,
  intersection-eq-zipped,
}
use bloom_filter_jyy_0098_go.Filter.Ops.Bytes.{zip_with}
use bloom_filter_jyy_0098_go.Filter.Ops.Count.{
  weight, popcnt-eq-ones, count_bytes-eq-weight, weight-xor_and,
}
use bloom_filter_jyy_0098_go.Merge.{hamming_distance, distance_loop, popcount}

distance_loop-eq-weight :
    (xs ys : List ℕ) (dist : ℕ)
    → All IsByte xs
    → All IsByte ys
    → length xs ≡ length ys
    → distance_loop xs ys dist ≡ ok (dist + weight (zip_with bit_xor xs ys))
unfolding distance_loop popcount weight zip_with
distance_loop-eq-weight [] [] dist hx hy e = ground arith
distance_loop-eq-weight [] (y ∷ ys) dist hx hy e = absurd (omega arith)
distance_loop-eq-weight (x ∷ xs) [] dist hx hy e = absurd (omega arith)
distance_loop-eq-weight (x ∷ xs) (y ∷ ys) dist hx hy e = ground (
  arith,
  bit_xor-lt 8 x y hx.0 hy.0,
  popcnt-eq-ones (bit_xor x y),
  distance_loop-eq-weight xs ys (dist + popcnt (bit_xor x y)) hx.1 hy.1 (omega arith),
)

-- On matching valid filters `HammingDistance` and `Intersection` succeed, and the distance with
-- twice the bits in common is the number of set bits of both.
pub hamming_distance-eq :
    (f g : BloomFilter)
    → Matches f g
    → (d : ℕ) × (h : BloomFilter) × (hamming_distance (some f) (some g) ≡ ok d)
      × (intersection f (some g) ≡ ok h)
      × (d + 2 * pop_count h ≡ pop_count f + pop_count g)
unfolding hamming_distance pop_count zipped
hamming_distance-eq f g p = (
  weight (zip_with bit_xor f.bits g.bits),
  zipped bit_and f g,
  ground (
    arith,
    mismatch-Matches f g p,
    distance_loop-eq-weight f.bits g.bits 0 p.left.bytes p.right.bytes (Matches-sized p),
  ),
  intersection-eq-zipped f g p,
  omega (
    arith,
    weight-xor_and f.bits g.bits (Matches-sized p),
    count_bytes-eq-weight f.bits 0 p.left.bytes,
    count_bytes-eq-weight g.bits 0 p.right.bytes,
    count_bytes-eq-weight (zip_with bit_and f.bits g.bits) 0
        (zipped-IsCombined bit_and-Bitwise f g p).valid.bytes,
  ),
)
