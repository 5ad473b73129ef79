-- ===== src/Capacity/Tests.antt =====
-- The theorems on capacity planning at concrete numbers.
use bloom_filter_jyy_0098_go.Base.{◌^◌, ◌≡◌, refl, List, [], ◌∷◌, map, ok, arith, All}
use bloom_filter_jyy_0098_go.Float.Sample.{thousandths}
use bloom_filter_jyy_0098_go.Filter.Sizing.{out_of_range}
use bloom_filter_jyy_0098_go.Filter.Builder.Tests.{thousandths-IsUint, thousandths-IsSized}
use bloom_filter_jyy_0098_go.Capacity.{Params}
use bloom_filter_jyy_0098_go.Capacity.Advisor.{
  TierConfig, TierPlan, multi_tier_plan, memory_budget_plan,
}
use bloom_filter_jyy_0098_go.Capacity.Tiers.{IsTier, IsPlanned, multi_tier_plan-IsPlanned}

abbrev hot : TierConfig thousandths
hot = record { name = b'h' ∷ []; expected_n = 4; target_fpr = 10 }

abbrev cold : TierConfig thousandths
cold = record { name = b'c' ∷ []; expected_n = 9; target_fpr = 100 }

hot-IsTier : IsTier thousandths hot
unfolding out_of_range
hot-IsTier = record { some_items = omega arith; in_range = refl; fits = thousandths-IsSized _ _ }

cold-IsTier : IsTier thousandths cold
unfolding out_of_range
cold-IsTier = record { some_items = omega arith; in_range = refl; fits = thousandths-IsSized _ _ }

multi_tier_plan-IsPlanned_example :
    (plans : List (TierPlan thousandths)) × (multi_tier_plan thousandths (hot ∷ cold ∷ [])
      ≡ ok plans)
    × (map (λ plan. plan.config) plans ≡ hot ∷ cold ∷ [])
    × All (IsPlanned thousandths) plans
multi_tier_plan-IsPlanned_example =
    multi_tier_plan-IsPlanned thousandths hot (cold ∷ []) thousandths-IsUint
      (hot-IsTier, (cold-IsTier, tt))

-- The number of bits of a budget of 2^61 bytes wraps.
budget_wraps :
    (p : Params thousandths) × (memory_budget_plan thousandths (2 ^ 61) 10 ≡ ok p) × (p.m ≡ 0)
unfolding memory_budget_plan
budget_wraps = (_, refl, refl)
