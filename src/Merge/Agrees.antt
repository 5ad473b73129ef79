-- ===== src/Merge/Agrees.antt =====
-- The combinations of merge.go beside the in-place ones of ops.go.
use bloom_filter_jyy_0098_go.Base.{
  ℕ, ◌≡◌, some, List, length, arith, false, ok, map_err, Bool-cases, inl, inr,
}
use bloom_filter_jyy_0098_go.Filter.{BloomFilter, FilterError, new_from_parts, bytes_for}
use bloom_filter_jyy_0098_go.Filter.Valid.{IsValid}
use bloom_filter_jyy_0098_go.Filter.Ops.{mismatch, combine}
use bloom_filter_jyy_0098_go.Filter.Ops.Algebra.{
  Matches, Matches-sized, combine-eq-zipped, zipped, mismatch-Matches,
}
use bloom_filter_jyy_0098_go.Filter.Ops.Bytes.{zip_with, zip_bytes-eq-zip_with, length-zip_with}
use bloom_filter_jyy_0098_go.Merge.{MergeError, nil_filter, param_mismatch, from_filter, merge_two}

-- The errors of package filter that `Union` and the others return, under the names of package
-- merge.
pub as_merge : FilterError → MergeError
as_merge FilterError.nil_filter = nil_filter
as_merge FilterError.param_mismatch = param_mismatch
as_merge e = from_filter e

-- `NewFromParts` accepts an array of the size that a valid filter has.
pub new_from_parts-IsValid :
    (f : BloomFilter) (bits : List ℕ)
    → IsValid f
    → length bits ≡ length f.bits
    → new_from_parts f.m f.k bits ≡ ok (record f { bits = bits })
unfolding new_from_parts bytes_for
new_from_parts-IsValid f bits v e = ground (arith, v.sized, v.m_pos, v.k_pos, v.m_fits)

pub Matches-of_same :
    (f g : BloomFilter) → IsValid f → IsValid g → mismatch f g ≡ false → Matches f g
unfolding mismatch
Matches-of_same f g v w e = record {
  left = v;
  right = w;
  same_m = ground arith;
  same_k = ground arith;
}

module _ (op : ℕ → ℕ → ℕ) (f g : BloomFilter) (v : IsValid f) (w : IsValid g) where
  merge_same :
      Matches f g → merge_two op (some f) (some g) ≡ map_err as_merge (combine op f (some g))
  unfolding merge_two zipped
  merge_same p = ground (
    arith,
    mismatch-Matches f g p,
    zip_bytes-eq-zip_with {E = MergeError} op f.bits g.bits (Matches-sized p),
    length-zip_with op f.bits g.bits (Matches-sized p),
    new_from_parts-IsValid f (zip_with op f.bits g.bits) v,
    combine-eq-zipped op f g p,
  )

  -- On valid filters a combination of package merge gives what the method of package filter
  -- gives, error for error.
  pub merge_two-eq-combine :
      merge_two op (some f) (some g) ≡ map_err as_merge (combine op f (some g))
  merge_two-eq-combine = elim (Bool-cases (mismatch f g)) [
    | inl e ↦ unfold merge_two combine as_merge in ground arith
    | inr e ↦ merge_same (Matches-of_same f g v w e)
  ]
