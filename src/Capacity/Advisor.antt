-- ===== src/Capacity/Advisor.antt =====
-- internal/capacity/advisor.go: plans for several tiers, a budget, and growth. The error of a plan
-- without tiers has no name in the source.
use bloom_filter_jyy_0098_go.Base.{
  ℕ, ◌*◌, List, [], ◌∷◌, u64, ltb, ◌==◌, ◌||◌, if◌then◌else◌, Result, ok, err, ◌>>=◌,
}
use bloom_filter_jyy_0098_go.Float.{Floats}
use bloom_filter_jyy_0098_go.Filter.Sizing.{out_of_range}
use bloom_filter_jyy_0098_go.Capacity.{
  CapacityError, invalid_fpr, invalid_count, no_tiers, Params, recommend,
}

module _ (fl : Floats) where
  open fl use {F}

  -- `name` is the bytes of the name.
  pub record TierConfig : Type 0 where
    pub name : List ℕ
    pub expected_n : ℕ
    pub target_fpr : F

  pub record TierPlan : Type 0 where
    pub config : TierConfig
    pub params : Params fl
    pub memory_mb : F

  -- `float64(params.Bytes) / (1024.0 * 1024.0)`
  unfoldable pub megabytes : Params fl → F
  megabytes p = fl.div (fl.of_uint p.bytes) (fl.decimal 1048576 0)

  unfoldable pub plan_tier : TierConfig → Result CapacityError TierPlan
  unfolding megabytes
  plan_tier tc =
      if tc.expected_n == 0
      then err invalid_count
      else if out_of_range fl tc.target_fpr
      then err invalid_fpr
      else do
        p ← recommend fl tc.expected_n tc.target_fpr
        ok (record { config = tc; params = p; memory_mb = megabytes p })

  -- The loop of `MultiTierPlan`.
  unfoldable pub plan_loop : List TierConfig → Result CapacityError (List TierPlan)
  unfolding plan_tier
  plan_loop [] = ok []
  plan_loop (tc ∷ tiers) = do plan ← plan_tier tc; rest ← plan_loop tiers; ok (plan ∷ rest)

  unfoldable pub multi_tier_plan : List TierConfig → Result CapacityError (List TierPlan)
  unfolding plan_loop
  multi_tier_plan [] = err no_tiers
  multi_tier_plan (tc ∷ tiers) = plan_loop (tc ∷ tiers)

  product_loop : F → List F → F
  product_loop product [] = product
  product_loop product (r ∷ rates) = product_loop (fl.mul product r) rates

  unfoldable pub combined_fpr : List F → F
  unfolding product_loop
  combined_fpr rates = product_loop (fl.decimal 1 0) rates

  miss_loop : F → List F → F
  miss_loop product [] = product
  miss_loop product (r ∷ rates) = miss_loop (fl.mul product (fl.sub (fl.decimal 1 0) r)) rates

  unfoldable pub parallel_fpr : List F → F
  unfolding miss_loop
  parallel_fpr rates = fl.sub (fl.decimal 1 0) (miss_loop (fl.decimal 1 0) rates)

  unfoldable pub optimal_k_for_m : ℕ → ℕ → ℕ
  optimal_k_for_m m n =
      if (n == 0) || (m == 0)
      then 1
      else let k = fl.mul (fl.div (fl.of_uint m) (fl.of_uint n)) fl.ln2 in
        let ki = fl.to_uint (fl.round k) in if ltb ki 1 then 1 else ki

  unfoldable pub compute_fpr : ℕ → ℕ → ℕ → F
  compute_fpr m k n =
      if m == 0
      then fl.decimal 1 0
      else let exponent = fl.div (fl.mul (fl.neg (fl.of_uint k)) (fl.of_uint n)) (fl.of_uint m) in
        fl.pow (fl.sub (fl.decimal 1 0) (fl.exp exponent)) (fl.of_uint k)

  unfoldable pub memory_budget_plan : ℕ → ℕ → Result CapacityError (Params fl)
  unfolding optimal_k_for_m compute_fpr
  memory_budget_plan budget_bytes expected_n =
      if (budget_bytes == 0) || (expected_n == 0)
      then err invalid_count
      else let m = u64 (budget_bytes * 8) in
        let k = optimal_k_for_m m expected_n in
        let rate = compute_fpr m k expected_n in
        ok (record {
          m = m;
          k = k;
          bytes = budget_bytes;
          expected_n = expected_n;
          target_fpr = rate;
          actual_fpr = rate;
          bits_per_item = fl.div (fl.of_uint m) (fl.of_uint expected_n);
        })

  pub record GrowthProjection : Type 0 where
    pub current_n : ℕ
    pub multiplier : ℕ
    pub projected_n : ℕ
    pub params : Params fl
    pub memory_mb : F

  -- The loop of `ProjectGrowth`; the product wraps.
  unfoldable pub project_loop : ℕ → F → List ℕ → Result CapacityError (List GrowthProjection)
  unfolding megabytes
  project_loop current_n target_fpr [] = ok []
  project_loop current_n target_fpr (mult ∷ multipliers) = do
    p ← recommend fl (u64 (current_n * mult)) target_fpr
    rest ← project_loop current_n target_fpr multipliers
    ok (
        record {
          current_n = current_n;
          multiplier = mult;
          projected_n = u64 (current_n * mult);
          params = p;
          memory_mb = megabytes p;
        }
        ∷ rest)

  unfoldable pub project_growth : ℕ → F → List ℕ → Result CapacityError (List GrowthProjection)
  unfolding project_loop
  project_growth current_n target_fpr multipliers =
      if current_n == 0
      then err invalid_count
      else if out_of_range fl target_fpr
      then err invalid_fpr
      else project_loop current_n target_fpr multipliers

  unfoldable pub bits_per_item_for_fpr : F → F
  bits_per_item_for_fpr target_fpr =
      if out_of_range fl target_fpr
      then fl.decimal 0 0
      else fl.div (fl.neg (fl.log target_fpr)) (fl.mul fl.ln2 fl.ln2)
