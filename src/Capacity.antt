-- ===== src/Capacity.antt =====
-- internal/capacity/capacity.go: parameters for a number of items, and the state of a filter in use.
-- An int is kept as its 64 bits. The texts of a report are left out. The parent of
-- internal/capacity/advisor.go, which is `Advisor`.
pub mod Advisor
pub mod Sizes
pub mod Tiers
mod Tests
use bloom_filter_jyy_0098_go.Base.{
  ℕ, ◌+◌, ◌-◌, ◌*◌, ◌/◌, ◌^◌, Bool, true, false, ◌&&◌, Option, none, some, List, u64, int_lt,
  int_le, ltb, leb, ◌==◌, if◌then◌else◌, Result, ok, err, panic, ◌>>=◌,
}
use bloom_filter_jyy_0098_go.Float.{Floats}
use bloom_filter_jyy_0098_go.Filter
use bloom_filter_jyy_0098_go.Filter.{BloomFilter}
use bloom_filter_jyy_0098_go.Filter.Ops.{count_bytes, popcnt}
use bloom_filter_jyy_0098_go.Filter.Sizing.{
  out_of_range, false_positive_rate, max_insertions, optimal_k, required_bits,
}

pub data CapacityError : Type 0 where
  invalid_fpr invalid_count nil_filter no_tiers : CapacityError

pub data Status : Type 0 where
  healthy warning critical : Status

-- `countBitsSet` and `popcount`, whose loops are those of filter/ops.go.
abbrev pub popcount : ℕ → ℕ
popcount b = popcnt b

abbrev pub count_bits_set : List ℕ → ℕ
count_bits_set bits = count_bytes bits 0

module _ (fl : Floats) where
  open fl use {F}

  pub record Params : Type 0 where
    pub m : ℕ
    pub k : ℕ
    pub bytes : ℕ
    pub expected_n : ℕ
    pub target_fpr : F
    pub actual_fpr : F
    pub bits_per_item : F

  -- `f, _ := filter.New(m, k)`, where the rate of a nil filter panics.
  unfoldable pub recommend : ℕ → F → Result CapacityError Params
  recommend expected_n target_fpr =
      if expected_n == 0
      then err invalid_count
      else if out_of_range fl target_fpr
      then err invalid_fpr
      else let m = required_bits fl expected_n target_fpr in
        let k = optimal_k fl m expected_n in
        elim (Filter.new m k) [
          | ok f ↦ ok (record {
            m = m;
            k = k;
            bytes = u64 (m + 7) / 8;
            expected_n = expected_n;
            target_fpr = target_fpr;
            actual_fpr = false_positive_rate fl f expected_n;
            bits_per_item = fl.div (fl.of_uint m) (fl.of_uint expected_n);
          })
          | err e ↦ panic
          | panic ↦ panic
        ]

  pub record MonitorConfig : Type 0 where
    pub warning_fpr : F
    pub critical_fpr : F

  unfoldable pub default_monitor_config : MonitorConfig
  default_monitor_config = record { warning_fpr = fl.decimal 5 2; critical_fpr = fl.decimal 10 2 }

  pub record Report : Type 0 where
    pub m : ℕ
    pub k : ℕ
    pub inserted_n : ℕ
    pub current_fpr : F
    pub saturation : F
    pub bits_set : ℕ
    pub bits_total : ℕ
    pub max_n : ℕ
    pub remaining_n : ℕ
    pub warning_fpr : F
    pub critical_fpr : F
    pub status : Status

  -- `maxN - insertedN`, or 0 if that is negative.
  unfoldable pub remaining : ℕ → ℕ → ℕ
  remaining max_n inserted_n =
      let left = u64 (max_n + (2 ^ 64 - inserted_n)) in if int_lt left 0 then 0 else left

  unfoldable pub status_of : MonitorConfig → F → Status
  status_of cfg rate =
      if fl.le cfg.critical_fpr rate
      then critical
      else if fl.le cfg.warning_fpr rate
      then warning
      else healthy

  unfoldable pub monitor : Option BloomFilter → ℕ → MonitorConfig → Result CapacityError Report
  unfolding remaining status_of
  monitor none inserted_n cfg = err nil_filter
  monitor (some f) inserted_n cfg =
      if out_of_range fl cfg.warning_fpr
      then err invalid_fpr
      else if out_of_range fl cfg.critical_fpr
      then err invalid_fpr
      else let bits_set = count_bits_set f.bits in
        let rate = false_positive_rate fl f inserted_n in
        let max_n = max_insertions fl f cfg.warning_fpr in
        ok (record {
          m = f.m;
          k = f.k;
          inserted_n = inserted_n;
          current_fpr = rate;
          saturation = fl.div (fl.of_int bits_set) (fl.of_uint f.m);
          bits_set = bits_set;
          bits_total = f.m;
          max_n = max_n;
          remaining_n = remaining max_n inserted_n;
          warning_fpr = cfg.warning_fpr;
          critical_fpr = cfg.critical_fpr;
          status = status_of cfg rate;
        })

  -- `new_params` and `growth_factor` are kept only where the advice is to scale and there are some.
  pub record ScaleAdvice : Type 0 where
    pub current_m : ℕ
    pub current_k : ℕ
    pub current_n : ℕ
    pub current_fpr : F
    pub should_scale : Bool
    pub new_params : Option (Params × F)

  -- `uint(insertedN) * 2`, at least 100.
  unfoldable pub scaled_n : ℕ → ℕ
  scaled_n inserted_n = let n = u64 (inserted_n * 2) in if ltb n 100 then 100 else n

  -- The parameters of the new filter, and its bits relative to the present ones.
  unfoldable pub scaled_params : BloomFilter → ℕ → F → Result CapacityError (Option (Params × F))
  unfolding scaled_n
  scaled_params f inserted_n target_fpr = elim (recommend (scaled_n inserted_n) target_fpr) [
    | ok p ↦ ok (some (p, fl.div (fl.of_uint p.m) (fl.of_uint f.m)))
    | err e ↦ ok none
    | panic ↦ panic
  ]

  unfoldable pub advise : Option BloomFilter → ℕ → F → Result CapacityError ScaleAdvice
  unfolding scaled_params
  advise none inserted_n target_fpr = err nil_filter
  advise (some f) inserted_n target_fpr =
      if out_of_range fl target_fpr
      then err invalid_fpr
      else let max_n = max_insertions fl f target_fpr in
        let threshold = fl.to_int (fl.mul (fl.of_int max_n) (fl.decimal 8 1)) in
        let scale = int_le threshold inserted_n && int_lt 0 inserted_n in
        do
          params ← if scale then scaled_params f inserted_n target_fpr else ok none
          ok (record {
            current_m = f.m;
            current_k = f.k;
            current_n = inserted_n;
            current_fpr = false_positive_rate fl f inserted_n;
            should_scale = scale;
            new_params = params;
          })

  unfoldable pub estimate_fpr : ℕ → ℕ → ℕ → F
  estimate_fpr m k n =
      if m == 0
      then fl.decimal 1 0
      else let exponent = fl.div (fl.mul (fl.neg (fl.of_uint k)) (fl.of_uint n)) (fl.of_uint m) in
        fl.pow (fl.sub (fl.decimal 1 0) (fl.exp exponent)) (fl.of_uint k)

  unfoldable pub estimate_inserted : Option BloomFilter → Result CapacityError ℕ
  estimate_inserted none = err nil_filter
  estimate_inserted (some f) =
      let bits_set = count_bits_set f.bits in
      if bits_set == 0
      then ok 0
      else let m = fl.of_uint f.m in
        let k = fl.of_uint f.k in
        let x = fl.of_int bits_set in
        if fl.le m x
        then ok (fl.to_int (fl.div m k))
        else let n = fl.mul (fl.neg (fl.div m k)) (fl.log (fl.sub (fl.decimal 1 0) (fl.div x m))) in
          if fl.lt n (fl.decimal 0 0) then ok 0 else ok (fl.to_int (fl.round n))

  pub record Comparison : Type 0 where
    pub param_a : Params
    pub param_b : Params
    pub memory_ratio : F
    pub fpr_ratio : F
    pub capacity_gain : F

  unfoldable pub compare_params : Params → Params → Comparison
  compare_params a b =
      let one = fl.decimal 1 0 in
      record {
        param_a = a;
        param_b = b;
        memory_ratio =
            if ltb 0 a.bytes then fl.div (fl.of_uint b.bytes) (fl.of_uint a.bytes) else one;
        fpr_ratio =
            if fl.lt (fl.decimal 0 0) a.actual_fpr then fl.div b.actual_fpr a.actual_fpr else one;
        capacity_gain =
            if ltb 0 a.expected_n
            then fl.div (fl.of_uint b.expected_n) (fl.of_uint a.expected_n)
            else one;
      }
