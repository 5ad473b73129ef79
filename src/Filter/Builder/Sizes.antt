-- ===== src/Filter/Builder/Sizes.antt =====
-- The sizes of the sub-filters that the scalable filter of builder.go makes when it grows.
use bloom_filter_jyy_0098_go.Base.{
  u64, ℕ, zero, suc, ◌+◌, ◌*◌, ◌<◌, ◌≤◌, ◌≡◌, refl, length, arith, sym, ap, ap₂, subst, ◌∙◌,
  if◌then◌else◌,
}
use bloom_filter_jyy_0098_go.Float.{Floats}
use bloom_filter_jyy_0098_go.Filter.Builder.{ScalableBloom, scaled}
use bloom_filter_jyy_0098_go.Filter.Builder.Building.{IsUint, IsSized}

module _ (fl : Floats) where
  open fl use {F}

  -- The capacity and the rate that `grow` computes for the sub-filter at index i.
  unfoldable pub grown_size : ScalableBloom fl → ℕ → ℕ × F
  unfolding scaled
  grown_size sb i =
      let at = scaled fl sb i sb.init_cap sb.target_fpr in
      (at.0, if fl.lt at.1 (fl.decimal 1 10) then fl.decimal 1 10 else at.1)

  -- The first size does not wrap, nor does that of a sub-filter that `grow` makes before there are
  -- `count` of them.
  pub record IsRoomy (sb : ScalableBloom fl) (count : ℕ) : Type 0 where
    pub word : IsUint fl
    pub first : IsSized fl sb.init_cap sb.target_fpr
    pub grown :
        (i : ℕ)
        → length sb.filters ≤ i
        → i < count
        → IsSized fl (grown_size sb i).0 (grown_size sb i).1

  -- What `Add` leaves alone, and that it makes one sub-filter at most.
  pub record IsGrown (sb sb' : ScalableBloom fl) : Type 0 where
    pub init_cap : sb'.init_cap ≡ sb.init_cap
    pub target_fpr : sb'.target_fpr ≡ sb.target_fpr
    pub fpr_scale : sb'.fpr_scale ≡ sb.fpr_scale
    pub growth_factor : sb'.growth_factor ≡ sb.growth_factor
    pub longer : length sb.filters ≤ length sb'.filters
    pub by_one : length sb'.filters ≤ length sb.filters + 1

  scaled-IsGrown :
      (sb sb' : ScalableBloom fl) (left cap : ℕ) (fpr : F)
      → IsGrown sb sb'
      → scaled fl sb' left cap fpr ≡ scaled fl sb left cap fpr
  unfolding scaled
  scaled-IsGrown sb sb' zero cap fpr g = refl
  scaled-IsGrown sb sb' (suc left) cap fpr g =
      ap₂ (λ growth scale. scaled fl sb' left (u64 (cap * growth)) (fl.mul fpr scale))
        g.growth_factor g.fpr_scale
      ∙ scaled-IsGrown sb sb' left (u64 (cap * sb.growth_factor)) (fl.mul fpr sb.fpr_scale) g

  grown_size-IsGrown :
      (sb sb' : ScalableBloom fl) (i : ℕ) → IsGrown sb sb' → grown_size sb' i ≡ grown_size sb i
  unfolding grown_size
  grown_size-IsGrown sb sb' i g =
      let same : scaled fl sb' i sb'.init_cap sb'.target_fpr
          ≡ scaled fl sb i sb.init_cap sb.target_fpr =
        ap₂ (λ cap fpr. scaled fl sb' i cap fpr) g.init_cap g.target_fpr
        ∙ scaled-IsGrown sb sb' i sb.init_cap sb.target_fpr g in
      ap (λ (at : ℕ × F). (at.0, if fl.lt at.1 (fl.decimal 1 10) then fl.decimal 1 10 else at.1))
        same

  pub IsGrown-IsRoomy :
      (sb sb' : ScalableBloom fl) (count count' : ℕ)
      → IsGrown sb sb'
      → count' ≤ count
      → IsRoomy sb count
      → IsRoomy sb' count'
  IsGrown-IsRoomy sb sb' count count' g h s = record {
    word = s.word;
    first =
        subst (λ (at : ℕ × F). IsSized fl at.0 at.1)
          (sym (ap₂ (λ cap fpr. (cap, fpr)) g.init_cap g.target_fpr)) s.first;
    grown = λ i longer b.
        subst (λ (at : ℕ × F). IsSized fl at.0 at.1) (sym (grown_size-IsGrown sb sb' i g))
          (s.grown i (omega (arith, g.longer)) (omega arith));
  }
