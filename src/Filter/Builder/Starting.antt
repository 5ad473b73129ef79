-- ===== src/Filter/Builder/Starting.antt =====
-- `NewScalableBloom` of builder.go: the first sub-filter.
use bloom_filter_jyy_0098_go.Base.{
  ne→==, ℕ, ◌<◌, ◌≡◌, refl, some, [], ◌∷◌, ok, arith, false, ◌∙◌, if◌then◌else◌, ltb,
}
use bloom_filter_jyy_0098_go.Float.{Floats}
use bloom_filter_jyy_0098_go.Filter
use bloom_filter_jyy_0098_go.Filter.{BloomFilter, FilterError, invalid_params}
use bloom_filter_jyy_0098_go.Filter.Sizing.{
  new_from_capacity, max_insertions, required_bits, optimal_k, out_of_range,
}
use bloom_filter_jyy_0098_go.Filter.Builder.{ScalableBloom, new_scalable}
use bloom_filter_jyy_0098_go.Filter.Builder.Building.{
  new-eq-empty, empty, IsUint, IsSized, new_from_capacity-IsValid,
}
use bloom_filter_jyy_0098_go.Filter.Builder.Loops.{there}
use bloom_filter_jyy_0098_go.Filter.Builder.Growing.{IsScalable}

module _ (fl : Floats) where
  open fl use {F}

  pub required_bits-pos : (n : ℕ) (fpr : F) → 0 < required_bits fl n fpr
  unfolding required_bits
  required_bits-pos n fpr = ground arith

  pub optimal_k-pos : (m n : ℕ) → 0 < optimal_k fl m n
  unfolding optimal_k
  optimal_k-pos m n = ground arith

  new_from_capacity-eq :
      (c : ℕ) (fpr : F)
      → 0 < c
      → out_of_range fl fpr ≡ false
      → new_from_capacity fl c fpr
        ≡ Filter.new (required_bits fl c fpr) (optimal_k fl (required_bits fl c fpr) c)
  unfolding new_from_capacity
  new_from_capacity-eq c fpr h e = rw (ne→== c 0 (λ q. omega (arith, q)), e) refl

  capacity-ok :
      (c : ℕ) (fpr : F)
      → 0 < c
      → out_of_range fl fpr ≡ false
      → (f : BloomFilter) × (new_from_capacity fl c fpr ≡ ok f)
  capacity-ok c fpr h e =
      let m = required_bits fl c fpr in
      let k = optimal_k fl m c in
      (
        empty fl m k,
        new_from_capacity-eq c fpr h e
            ∙ new-eq-empty fl m k (required_bits-pos c fpr) (optimal_k-pos m c),
      )

  -- Where the size of its first sub-filter does not wrap, `NewScalableBloom` returns a well-formed filter for a positive
  -- capacity and a rate and a scale that are not out of range.
  pub new_scalable-IsScalable :
      (c : ℕ) (fpr scale : F) (growth : ℕ)
      → IsUint fl
      → IsSized fl c fpr
      → 0 < c
      → out_of_range fl fpr ≡ false
      → out_of_range fl scale ≡ false
      → (sb : ScalableBloom fl) × (new_scalable fl c fpr scale growth ≡ ok sb) × IsScalable fl sb
  unfolding new_scalable
  new_scalable-IsScalable c fpr scale growth u s h e1 e2 =
      let f = capacity-ok c fpr h e1 in
      let sb : ScalableBloom fl = record {
        filters = some f.0 ∷ [];
        target_fpr = fpr;
        fpr_scale = scale;
        growth_factor = if ltb growth 1 then 2 else growth;
        init_cap = c;
        current_n = 0;
        max_n = max_insertions fl f.0 fpr;
      } in
      (
        sb,
        rw (new_scalable, ne→== c 0 (λ q. omega (arith, q)), e1, e2, f.1) refl,
        record {
          some_filters = omega arith;
          there = (there f.0 (new_from_capacity-IsValid fl c fpr u s f.1), tt);
          first = f.0;
          base = f.1;
        },
      )
