-- ===== src/Merge/Overlap.antt =====
-- What `Similarity` of merge.go divides.
use bloom_filter_jyy_0098_go.Base.{
  ℕ, ◌+◌, ◌≡◌, refl, List, [], ◌∷◌, length, arith, All, IsByte, bit_and, bit_or, ok, some,
  bit_and-lt, bit_or-lt,
}
use bloom_filter_jyy_0098_go.Filter.{BloomFilter}
use bloom_filter_jyy_0098_go.Filter.Ops.{popcnt, pop_count, intersection, union}
use bloom_filter_jyy_0098_go.Filter.Ops.Algebra.{
  Matches, Matches-sized, mismatch-Matches, zipped, zipped-IsCombined, bit_and-Bitwise,
  bit_or-Bitwise, intersection-eq-zipped, union-eq-zipped,
}
use bloom_filter_jyy_0098_go.Filter.Ops.Bytes.{zip_with}
use bloom_filter_jyy_0098_go.Filter.Ops.Count.{
  weight, popcnt-eq-ones, count_bytes-eq-weight, weight-or_and,
}
use bloom_filter_jyy_0098_go.Merge.{popcount}
use bloom_filter_jyy_0098_go.Merge.Estimates.{overlap_loop, similarity, ratio}
use bloom_filter_jyy_0098_go.Float.{Floats}

overlap_loop-eq-weight :
    (xs ys : List ℕ) (ands ors : ℕ)
    → All IsByte xs
    → All IsByte ys
    → length xs ≡ length ys
    → overlap_loop xs ys ands ors
      ≡ ok (ands + weight (zip_with bit_and xs ys), ors + weight (zip_with bit_or xs ys))
unfolding overlap_loop popcount weight zip_with
overlap_loop-eq-weight [] [] ands ors hx hy e = ground arith
overlap_loop-eq-weight [] (y ∷ ys) ands ors hx hy e = absurd (omega arith)
overlap_loop-eq-weight (x ∷ xs) [] ands ors hx hy e = absurd (omega arith)
overlap_loop-eq-weight (x ∷ xs) (y ∷ ys) ands ors hx hy e = ground (
  arith,
  bit_and-lt 256 x y hx.0,
  bit_or-lt 8 x y hx.0 hy.0,
  popcnt-eq-ones (bit_and x y),
  popcnt-eq-ones (bit_or x y),
  overlap_loop-eq-weight xs ys (ands + popcnt (bit_and x y)) (ors + popcnt (bit_or x y)) hx.1 hy.1
      (omega arith),
)

-- On matching valid filters `Similarity` succeeds and divides the set bits of the intersection by
-- those of the union, which together are as many as those of both filters.
pub similarity-eq-ratio :
    (fl : Floats) (f g : BloomFilter)
    → Matches f g
    → (h : BloomFilter) × (u : BloomFilter) × (intersection f (some g) ≡ ok h)
      × (union f (some g) ≡ ok u)
      × (similarity fl (some f) (some g) ≡ ok (ratio fl (pop_count h, pop_count u)))
      × (pop_count h + pop_count u ≡ pop_count f + pop_count g)
unfolding similarity pop_count zipped
similarity-eq-ratio fl f g p =
    let ands =
      count_bytes-eq-weight (zip_with bit_and f.bits g.bits) 0
        (zipped-IsCombined bit_and-Bitwise f g p).valid.bytes in
    let ors =
      count_bytes-eq-weight (zip_with bit_or f.bits g.bits) 0
        (zipped-IsCombined bit_or-Bitwise f g p).valid.bytes in
    (
      zipped bit_and f g,
      zipped bit_or f g,
      intersection-eq-zipped f g p,
      union-eq-zipped f g p,
      rw
          (
            ands,
            ors,
            mismatch-Matches f g p,
            overlap_loop-eq-weight f.bits g.bits 0 0 p.left.bytes p.right.bytes (Matches-sized p),
          )
          refl,
      omega (
        arith,
        ands,
        ors,
        weight-or_and f.bits g.bits (Matches-sized p),
        count_bytes-eq-weight f.bits 0 p.left.bytes,
        count_bytes-eq-weight g.bits 0 p.right.bytes,
      ),
    )
