-- ===== src/Filter/Builder/Building.antt =====
-- `Build` of builder.go: what the filter it returns holds.
use bloom_filter_jyy_0098_go.Base.{
  ℕ, replicate, ◌+◌, ◌^◌, ◌<◌, ◌≡◌, refl, List, ok, err, arith, true, Bool-cases, ◌⊎◌, inl, inr,
  sym, ◌∙◌, ◌==◌, ◌||◌,
}
use mathlib.Core.List.{Mem}
use bloom_filter_jyy_0098_go.Float.{Floats}
use bloom_filter_jyy_0098_go.Filter
use bloom_filter_jyy_0098_go.Filter.{BloomFilter, FilterError, invalid_params, test, add_all}
use bloom_filter_jyy_0098_go.Filter.Valid.{IsValid, new-IsValid}
use bloom_filter_jyy_0098_go.Filter.View.{params-add_all}
use bloom_filter_jyy_0098_go.Filter.Membership.{test-add_all}
use bloom_filter_jyy_0098_go.Filter.Sizing.{
  new_from_capacity, required_bits, optimal_k, out_of_range,
}
use bloom_filter_jyy_0098_go.Filter.Builder.{Builder, build, base_filter, estimate_params}

module _ (fl : Floats) where
  open fl use {F}

  -- A uint has 64 bits, whatever number it was converted from.
  pub record IsUint : Type 0 where
    pub word : (x : F) → fl.to_uint x < 2 ^ 64

  -- The size that `RequiredBits` gives for n items at this rate does not wrap when it is rounded up
  -- to bytes.
  abbrev pub IsSized : ℕ → F → Type 0
  IsSized n fpr = required_bits fl n fpr + 7 < 2 ^ 64

  pub optimal_k-lt : (m n : ℕ) → IsUint → optimal_k fl m n < 2 ^ 64
  unfolding optimal_k
  optimal_k-lt m n u =
      ground (arith, u.word (fl.round (fl.mul (fl.div (fl.of_uint m) (fl.of_uint n)) fl.ln2)))

  -- `NewFromCapacity` is `New` of the computed parameters, where the guards let it pass.
  pub new_from_capacity-eq-new :
      (n : ℕ) (fpr : F)
      → (new_from_capacity fl n fpr ≡ err invalid_params)
        ⊎ (new_from_capacity fl n fpr
            ≡ Filter.new (required_bits fl n fpr) (optimal_k fl (required_bits fl n fpr) n))
  unfolding new_from_capacity
  new_from_capacity-eq-new n fpr = elim (Bool-cases ((n == 0) || out_of_range fl fpr)) [
    | inl e ↦ inl (rw (e) refl)
    | inr e ↦ inr (rw (e) refl)
  ]

  -- A filter that `NewFromCapacity` returns is well-formed, where its size does not wrap.
  pub new_from_capacity-IsValid :
      (n : ℕ) (fpr : F) {f : BloomFilter}
      → IsUint
      → IsSized n fpr
      → new_from_capacity fl n fpr ≡ ok f
      → IsValid f
  new_from_capacity-IsValid n fpr u s e = elim (new_from_capacity-eq-new n fpr) [
    | inl bad ↦ absurd (ground (arith, bad, e))
    | inr good ↦
        new-IsValid (required_bits fl n fpr) (optimal_k fl (required_bits fl n fpr) n) s
          (optimal_k-lt (required_bits fl n fpr) n u) (sym good ∙ e)
  ]

  -- `Build` starts from a new filter of the parameters that `EstimateParams` gives.
  base_filter-eq-new :
      (b : Builder fl)
      → 0 < (estimate_params fl b).0
      → base_filter fl b ≡ Filter.new (estimate_params fl b).0 (estimate_params fl b).1
  unfolding base_filter estimate_params new_from_capacity
  base_filter-eq-new b h = ground arith

  estimate_params-lt :
      (b : Builder fl)
      → IsUint
      → IsSized b.expected_n b.max_fpr
      → b.m + 7 < 2 ^ 64
      → b.k < 2 ^ 64
      → ((estimate_params fl b).0 + 7 < 2 ^ 64) × ((estimate_params fl b).1 < 2 ^ 64)
  unfolding estimate_params
  estimate_params-lt b u s bm bk =
      let m = required_bits fl b.expected_n b.max_fpr in
      ground (arith, s, optimal_k-lt m b.expected_n u, bm, bk)

  abbrev pub empty : ℕ → ℕ → BloomFilter
  empty m k = record { m = m; k = k; bits = replicate (Filter.bytes_for m) 0 }

  pub new-eq-empty : (m k : ℕ) → 0 < m → 0 < k → Filter.new m k ≡ ok (empty m k)
  unfolding Filter.new
  new-eq-empty m k h b = ground arith

  -- Where the parameters that `EstimateParams` gives are positive, and the size of the filter and
  -- its parameters do not wrap, `Build` returns a filter of these parameters, in which every preloaded item tests as
  -- present.
  pub test-build :
      (b : Builder fl) (item : List ℕ)
      → IsUint
      → IsSized b.expected_n b.max_fpr
      → b.m + 7 < 2 ^ 64
      → b.k < 2 ^ 64
      → 0 < (estimate_params fl b).0
      → 0 < (estimate_params fl b).1
      → Mem item b.preload
      → (f : BloomFilter) × (build fl b ≡ ok f)
        × (f.m ≡ (estimate_params fl b).0)
        × (f.k ≡ (estimate_params fl b).1)
        × (test f item ≡ true)
  unfolding build
  test-build b item u s bm bk hm hk h =
      let m = (estimate_params fl b).0 in
      let k = (estimate_params fl b).1 in
      let fit = estimate_params-lt b u s bm bk in
      let e = new-eq-empty m k hm hk in
      let v = new-IsValid m k fit.0 fit.1 e in
      let kept = params-add_all (empty m k) b.preload in
      (
        add_all (empty m k) b.preload,
        rw (base_filter-eq-new b hm, e) refl,
        kept.0,
        kept.1,
        test-add_all (empty m k) b.preload item v h,
      )
