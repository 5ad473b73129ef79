-- ===== src/Filter/Builder/Tests.antt =====
-- The theorems on the builder and the scalable filter at concrete ones.
use bloom_filter_jyy_0098_go.Base.{ℕ, ◌≡◌, refl, List, [], ◌∷◌, ok, some, true, arith, All}
use bloom_filter_jyy_0098_go.Float.Sample.{thousandths}
use bloom_filter_jyy_0098_go.Filter
use bloom_filter_jyy_0098_go.Filter.{BloomFilter}
use bloom_filter_jyy_0098_go.Filter.Sizing.{required_bits}
use bloom_filter_jyy_0098_go.Filter.Builder.{
  Builder, ScalableBloom, estimate_params, test, new_scalable,
}
use bloom_filter_jyy_0098_go.Filter.Builder.Building.{IsUint, IsSized}
use bloom_filter_jyy_0098_go.Filter.Builder.Sizes.{IsRoomy}
use bloom_filter_jyy_0098_go.Filter.Builder.Growing.{IsScalable, adds, test-adds}
use bloom_filter_jyy_0098_go.Filter.Builder.Starting.{new_scalable-IsScalable}

pub thousandths-IsUint : IsUint thousandths
thousandths-IsUint = record { word = λ x. omega arith }

-- No size wraps, whatever the number of items and the rate.
pub thousandths-IsSized : (n fpr : ℕ) → IsSized thousandths n fpr
unfolding required_bits
thousandths-IsSized n fpr = ground arith

abbrev item : List ℕ
item = b'a' ∷ []

abbrev builder : Builder thousandths
builder = record {
  expected_n = 4;
  max_fpr = 10;
  m = 0;
  k = 0;
  use_manual = Filter.false;
  preload = item ∷ [];
}

parameters : estimate_params thousandths builder ≡ (8, 1)
unfolding estimate_params
parameters = refl

scalable :
    (sb : ScalableBloom thousandths) × (new_scalable thousandths 4 10 800 2 ≡ ok sb)
    × IsScalable thousandths sb
unfolding bloom_filter_jyy_0098_go.Filter.Sizing.out_of_range
scalable =
    new_scalable-IsScalable thousandths 4 10 800 2 thousandths-IsUint (thousandths-IsSized 4 10)
      (omega arith) refl refl

thousandths-IsRoomy : (count : ℕ) → IsRoomy thousandths scalable.0 count
thousandths-IsRoomy count = record {
  word = thousandths-IsUint;
  first = thousandths-IsSized scalable.0.init_cap scalable.0.target_fpr;
  grown = λ i longer b. thousandths-IsSized _ _;
}

test-adds_example :
    (sb' : ScalableBloom thousandths) × (adds thousandths (item ∷ [] ∷ item ∷ []) scalable.0
      ≡ some sb')
    × IsScalable thousandths sb'
    × All (λ item. test thousandths item sb' ≡ some true) (item ∷ [] ∷ item ∷ [])
test-adds_example =
    test-adds thousandths (item ∷ [] ∷ item ∷ []) scalable.0 (thousandths-IsRoomy _) scalable.2
