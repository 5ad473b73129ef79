-- ===== src/Filter/Sizing.antt =====
-- The estimates and the capacity planning of internal/filter/filter.go, and `Saturation` of ops.go.
-- The guards on a false positive rate reject what is not strictly between 0 and 1.
use bloom_filter_jyy_0098_go.Base.{ℕ, ltb, ◌==◌, ◌||◌, Bool, if◌then◌else◌, Result, err}
use bloom_filter_jyy_0098_go.Float.{Floats}
use bloom_filter_jyy_0098_go.Filter.{BloomFilter, FilterError, invalid_params, new}
use bloom_filter_jyy_0098_go.Filter.Ops.{count_bytes}

module _ (fl : Floats) where
  open fl use {F}

  abbrev pub num : ℕ → F
  num n = fl.decimal n 0

  -- `rate <= 0 || rate >= 1`
  unfoldable pub out_of_range : F → Bool
  out_of_range rate = fl.le rate (num 0) || fl.le (num 1) rate

  unfoldable pub saturation : BloomFilter → F
  saturation f =
      if f.m == 0 then num 0 else fl.div (fl.of_int (count_bytes f.bits 0)) (fl.of_uint f.m)

  unfoldable pub false_positive_rate : BloomFilter → ℕ → F
  false_positive_rate f n =
      if f.m == 0
      then num 1
      else let exponent =
          fl.div (fl.mul (fl.neg (fl.of_uint f.k)) (fl.of_int n)) (fl.of_uint f.m) in
        fl.pow (fl.sub (num 1) (fl.exp exponent)) (fl.of_uint f.k)

  unfoldable pub max_insertions : BloomFilter → F → ℕ
  unfolding out_of_range
  max_insertions f max_fpr =
      if out_of_range max_fpr || (f.m == 0) || (f.k == 0)
      then 0
      else let inner = fl.sub (num 1) (fl.pow max_fpr (fl.div (num 1) (fl.of_uint f.k))) in
        if fl.le inner (num 0)
        then 0
        else let n = fl.div (fl.mul (fl.neg (fl.of_uint f.m)) (fl.log inner)) (fl.of_uint f.k) in
          if fl.lt n (num 0) then 0 else fl.to_int n

  unfoldable pub optimal_k : ℕ → ℕ → ℕ
  optimal_k m n =
      if (n == 0) || (m == 0)
      then 1
      else let k = fl.mul (fl.div (fl.of_uint m) (fl.of_uint n)) fl.ln2 in
        let ki = fl.to_uint (fl.round k) in if ltb ki 1 then 1 else ki

  unfoldable pub required_bits : ℕ → F → ℕ
  unfolding out_of_range
  required_bits n fpr =
      if (n == 0) || out_of_range fpr
      then 8
      else let m = fl.div (fl.mul (fl.neg (fl.of_uint n)) (fl.log fpr)) (fl.mul fl.ln2 fl.ln2) in
        let mi = fl.to_uint (fl.ceil (fl.mul m (fl.decimal 102 2))) in if ltb mi 8 then 8 else mi

  unfoldable pub new_from_capacity : ℕ → F → Result FilterError BloomFilter
  unfolding out_of_range required_bits optimal_k
  new_from_capacity expected_n max_fpr =
      if (expected_n == 0) || out_of_range max_fpr
      then err invalid_params
      else let m = required_bits expected_n max_fpr in new m (optimal_k m expected_n)
