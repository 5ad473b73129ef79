-- ===== src/Capacity/Tiers.antt =====
-- `MultiTierPlan` of advisor.go: a plan for each tier, or the first error.
use bloom_filter_jyy_0098_go.Base.{
  ◌<◌, ◌≡◌, refl, List, [], ◌∷◌, ◌++◌, map, ok, err, arith, false, All, ne→==, ap₂,
}
use bloom_filter_jyy_0098_go.Float.{Floats}
use bloom_filter_jyy_0098_go.Filter.Sizing.{out_of_range}
use bloom_filter_jyy_0098_go.Filter.Builder.Building.{IsUint, IsSized}
use bloom_filter_jyy_0098_go.Capacity.{invalid_count}
use bloom_filter_jyy_0098_go.Capacity.Advisor.{
  TierConfig, TierPlan, plan_tier, plan_loop, multi_tier_plan, megabytes,
}
use bloom_filter_jyy_0098_go.Capacity.Sizes.{IsBuildable, IsFor, recommend-IsBuildable}

module _ (fl : Floats) where
  open fl use {F}

  -- A tier with items and a rate in range, whose filter has a size that does not wrap.
  pub record IsTier (tc : TierConfig fl) : Type 0 where
    pub some_items : 0 < tc.expected_n
    pub in_range : out_of_range fl tc.target_fpr ≡ false
    pub fits : IsSized fl tc.expected_n tc.target_fpr

  -- A plan whose parameters are those that its own tier asks for, and those of a well-formed filter,
  -- and whose memory is that of these parameters.
  pub record IsPlanned (plan : TierPlan fl) : Type 0 where
    pub asked : IsFor fl plan.config.expected_n plan.config.target_fpr plan.params
    pub buildable : IsBuildable fl plan.params
    pub memory : plan.memory_mb ≡ megabytes fl plan.params

  plan_tier-ok :
      (tc : TierConfig fl)
      → IsUint fl
      → IsTier tc
      → (plan : TierPlan fl) × (plan_tier fl tc ≡ ok plan) × (plan.config ≡ tc) × IsPlanned plan
  unfolding plan_tier
  plan_tier-ok tc s t =
      let r =
        recommend-IsBuildable fl tc.expected_n tc.target_fpr s t.fits t.some_items t.in_range in
      (
        record { config = tc; params = r.0; memory_mb = megabytes fl r.0 },
        rw (plan_tier, ne→== tc.expected_n 0 (λ q. omega (arith, q, t.some_items)), t.in_range, r.1)
            refl,
        refl,
        record { asked = r.3; buildable = r.2; memory = refl },
      )

  plan_loop-ok :
      (tiers : List (TierConfig fl))
      → IsUint fl
      → All IsTier tiers
      → (plans : List (TierPlan fl)) × (plan_loop fl tiers ≡ ok plans)
        × (map (λ plan. plan.config) plans ≡ tiers)
        × All IsPlanned plans
  unfolding plan_loop
  plan_loop-ok [] s h = ([], refl, refl, tt)
  plan_loop-ok (tc ∷ tiers) s h =
      let p = plan_tier-ok tc s h.0 in
      let rest = plan_loop-ok tiers s h.1 in
      (
        p.0 ∷ rest.0,
        rw (plan_loop, p.1, rest.1) refl,
        ap₂ (λ c cs. c ∷ cs) p.2 rest.2,
        (p.3, rest.3),
      )

  -- `MultiTierPlan` of at least one tier, each of which has items, a rate in range, and a size that
  -- does not wrap, returns one plan for each tier, in their order. The parameters of every plan are
  -- those for the number of items and the rate of its tier, and those of a well-formed filter.
  pub multi_tier_plan-IsPlanned :
      (first : TierConfig fl) (tiers : List (TierConfig fl))
      → IsUint fl
      → All IsTier (first ∷ tiers)
      → (plans : List (TierPlan fl)) × (multi_tier_plan fl (first ∷ tiers) ≡ ok plans)
        × (map (λ plan. plan.config) plans ≡ first ∷ tiers)
        × All IsPlanned plans
  unfolding multi_tier_plan
  multi_tier_plan-IsPlanned first tiers s h =
      let r = plan_loop-ok (first ∷ tiers) s h in (r.0, r.1, r.2, r.3)

  plan_loop-err :
      (good : List (TierConfig fl)) (bad : TierConfig fl) (rest : List (TierConfig fl))
      → IsUint fl
      → All IsTier good
      → bad.expected_n ≡ 0
      → plan_loop fl (good ++ bad ∷ rest) ≡ err invalid_count
  unfolding plan_loop
  plan_loop-err [] bad rest s h e = rw (plan_loop, plan_tier, e) refl
  plan_loop-err (tc ∷ good) bad rest s h e =
      rw (plan_loop, (plan_tier-ok tc s h.0).1, plan_loop-err good bad rest s h.1 e) refl

  -- A tier without items makes `MultiTierPlan` fail with the error that says so, whatever comes after
  -- it, if the tiers before it have items, a rate in range, and a size that does not wrap.
  pub multi_tier_plan-err :
      (good : List (TierConfig fl)) (bad : TierConfig fl) (rest : List (TierConfig fl))
      → IsUint fl
      → All IsTier good
      → bad.expected_n ≡ 0
      → multi_tier_plan fl (good ++ bad ∷ rest) ≡ err invalid_count
  unfolding multi_tier_plan
  multi_tier_plan-err [] bad rest s h e = plan_loop-err [] bad rest s h e
  multi_tier_plan-err (tc ∷ good) bad rest s h e = plan_loop-err (tc ∷ good) bad rest s h e
