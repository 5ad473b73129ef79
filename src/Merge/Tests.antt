-- ===== src/Merge/Tests.antt =====
-- The theorems on merges at concrete filters.
use bloom_filter_jyy_0098_go.Base.{◌≡◌, some, [], ◌∷◌, arith, ok}
use bloom_filter_jyy_0098_go.Filter.{BloomFilter, add_all}
use bloom_filter_jyy_0098_go.Filter.Valid.{IsValid}
use bloom_filter_jyy_0098_go.Filter.Ops.Algebra.{Matches}
use bloom_filter_jyy_0098_go.Merge.{union_many}
use bloom_filter_jyy_0098_go.Merge.Many.{union_many-add_all}

abbrev left : BloomFilter
left = record { m = 16; k = 2; bits = 0x81 ∷ 4 ∷ [] }

abbrev right : BloomFilter
right = record { m = 16; k = 2; bits = 0x80 ∷ 3 ∷ [] }

left-IsValid : IsValid left
left-IsValid = record {
  m_pos = omega arith;
  m_fits = omega arith;
  k_pos = omega arith;
  k_fits = omega arith;
  sized = omega arith;
  bytes = omega arith;
}

right-IsValid : IsValid right
right-IsValid = record {
  m_pos = omega arith;
  m_fits = omega arith;
  k_pos = omega arith;
  k_fits = omega arith;
  sized = omega arith;
  bytes = omega arith;
}

left_right : Matches left right
left_right = record {
  left = left-IsValid;
  right = right-IsValid;
  same_m = omega arith;
  same_k = omega arith;
}

union_many-add_all_example :
    union_many (some (add_all left ((1 ∷ []) ∷ [])) ∷ some (add_all left ((2 ∷ []) ∷ [])) ∷ [])
    ≡ ok (add_all left ((1 ∷ []) ∷ (2 ∷ []) ∷ []))
union_many-add_all_example =
    union_many-add_all left ((1 ∷ []) ∷ []) (((2 ∷ []) ∷ []) ∷ []) left-IsValid
