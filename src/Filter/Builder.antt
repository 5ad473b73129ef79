-- ===== src/Filter/Builder.antt =====
-- internal/filter/builder.go: the builder, and the filter that grows by sub-filters. A pointer to a
-- sub-filter may be nil; `none` as a result is a panic.
pub mod Building
pub mod Loops
pub mod Sizes
pub mod Growing
pub mod Starting
pub mod Tests
use bloom_filter_jyy_0098_go.Base.{
  ℕ, zero, suc, ◌+◌, ◌-◌, ◌*◌, Bool, true, false, Option, none, some, List, [], ◌∷◌, ◌++◌, length,
  get_or, set, u64, int_lt, int_le, ltb, ◌==◌, ◌||◌, if◌then◌else◌, Result, ok, err, panic, map_err,
  ◌>>=◌,
}
use bloom_filter_jyy_0098_go.Float.{Floats}
use bloom_filter_jyy_0098_go.Filter
use bloom_filter_jyy_0098_go.Filter.{
  BloomFilter, FilterError, invalid_params, builder_no_items, bad_fpr_scale, add_all,
}
use bloom_filter_jyy_0098_go.Filter.Sizing.{
  out_of_range, max_insertions, optimal_k, required_bits, new_from_capacity,
}

-- The loop of `Test` of the filter that grows.
unfoldable pub test_loop : List ℕ → List (Option BloomFilter) → Option Bool
test_loop item [] = some false
test_loop item (none ∷ fs) = none
test_loop item (some f ∷ fs) =
    let rest = test_loop item fs in if Filter.test f item then some true else rest

module _ (fl : Floats) where
  open fl use {F}

  pub record Builder : Type 0 where
    pub expected_n : ℕ
    pub max_fpr : F
    pub m : ℕ
    pub k : ℕ
    pub use_manual : Bool
    pub preload : List (List ℕ)

  unfoldable pub new_builder : Builder
  new_builder = record {
    expected_n = 0;
    max_fpr = fl.decimal 1 2;
    m = 0;
    k = 0;
    use_manual = false;
    preload = [];
  }

  unfoldable pub with_capacity : ℕ → F → Builder → Builder
  with_capacity expected_n max_fpr b = record b {
    expected_n = expected_n;
    max_fpr = max_fpr;
    use_manual = false;
  }

  unfoldable pub with_params : ℕ → ℕ → Builder → Builder
  with_params m k b = record b { m = m; k = k; use_manual = true }

  unfoldable pub with_preload : List (List ℕ) → Builder → Builder
  with_preload items b = record b { preload = items }

  -- The filter of `Build` before the preloaded items are added.
  unfoldable pub base_filter : Builder → Result FilterError BloomFilter
  unfolding out_of_range new_from_capacity
  base_filter b =
      if b.use_manual
      then Filter.new b.m b.k
      else if b.expected_n == 0
      then err builder_no_items
      else if out_of_range fl b.max_fpr
      then err invalid_params
      else new_from_capacity fl b.expected_n b.max_fpr

  unfoldable pub build : Builder → Result FilterError BloomFilter
  unfolding base_filter
  build b = do f ← base_filter b; ok (add_all f b.preload)

  unfoldable pub estimate_params : Builder → ℕ × ℕ
  unfolding out_of_range required_bits optimal_k
  estimate_params b =
      if b.use_manual
      then (b.m, b.k)
      else if (b.expected_n == 0) || out_of_range fl b.max_fpr
      then (0, 0)
      else let m = required_bits fl b.expected_n b.max_fpr in (m, optimal_k fl m b.expected_n)

  -- `current_n` and `max_n` are ints.
  pub record ScalableBloom : Type 0 where
    pub filters : List (Option BloomFilter)
    pub target_fpr : F
    pub fpr_scale : F
    pub growth_factor : ℕ
    pub init_cap : ℕ
    pub current_n : ℕ
    pub max_n : ℕ

  unfoldable pub new_scalable : ℕ → F → F → ℕ → Result FilterError ScalableBloom
  new_scalable init_cap target_fpr fpr_scale growth_factor =
      if (init_cap == 0) || out_of_range fl target_fpr
      then err invalid_params
      else if out_of_range fl fpr_scale
      then err bad_fpr_scale
      else do
        first ← new_from_capacity fl init_cap target_fpr
        ok (record {
          filters = some first ∷ [];
          target_fpr = target_fpr;
          fpr_scale = fpr_scale;
          growth_factor = if ltb growth_factor 1 then 2 else growth_factor;
          init_cap = init_cap;
          current_n = 0;
          max_n = max_insertions fl first target_fpr;
        })

  -- The loop of `grow`: the capacity, which wraps, and the rate of the next sub-filter.
  scaled : ScalableBloom → ℕ → ℕ → F → ℕ × F
  scaled sb zero cap fpr = (cap, fpr)
  scaled sb (suc left) cap fpr =
      scaled sb left (u64 (cap * sb.growth_factor)) (fl.mul fpr sb.fpr_scale)

  -- The new sub-filter of `grow`, or the one of the first size if there is an error.
  unfoldable pub next_filter : ScalableBloom → ℕ → F → Option BloomFilter
  unfolding new_from_capacity
  next_filter sb cap fpr = elim (new_from_capacity fl cap fpr) [
    | ok f ↦ some f
    | err e ↦ elim (new_from_capacity fl sb.init_cap sb.target_fpr) [
      | ok f ↦ some f
      | err e' ↦ none
      | panic ↦ none
    ]
    | panic ↦ none
  ]

  unfoldable pub grow : ScalableBloom → Option ScalableBloom
  unfolding scaled next_filter max_insertions
  grow sb =
      let at = scaled sb (length sb.filters) sb.init_cap sb.target_fpr in
      let fpr = if fl.lt at.1 (fl.decimal 1 10) then fl.decimal 1 10 else at.1 in
      elim (next_filter sb at.0 fpr) [
        | none ↦ none
        | some nf ↦
            let max_n = max_insertions fl nf fpr in
            some (record sb {
              filters = sb.filters ++ some nf ∷ [];
              current_n = 0;
              max_n = if int_le max_n 0 then at.0 else max_n;
            })
      ]

  unfoldable pub add_active : List ℕ → ScalableBloom → Option ScalableBloom
  add_active item sb =
      let last = length sb.filters - 1 in
      elim (get_or sb.filters last none) [
        | none ↦ none
        | some f ↦ some (record sb {
          filters = set sb.filters last (some (Filter.add f item));
          current_n = u64 (sb.current_n + 1);
        })
      ]

  unfoldable pub add : List ℕ → ScalableBloom → Option ScalableBloom
  unfolding grow add_active
  add item sb =
      if int_le sb.max_n sb.current_n
      then elim (grow sb) [ none ↦ none | some grown ↦ add_active item grown ]
      else add_active item sb

  unfoldable pub test : List ℕ → ScalableBloom → Option Bool
  unfolding test_loop
  test item sb = test_loop item sb.filters

  -- The loop of `Len` over all sub-filters but the last.
  len_loop : F → List (Option BloomFilter) → ℕ → Option ℕ
  unfolding max_insertions
  len_loop fpr [] total = some total
  len_loop fpr (f ∷ []) total = some total
  len_loop fpr (none ∷ g ∷ fs) total = none
  len_loop fpr (some f ∷ g ∷ fs) total =
      len_loop fpr (g ∷ fs) (u64 (total + max_insertions fl f fpr))

  unfoldable pub len : ScalableBloom → Option ℕ
  unfolding len_loop
  len sb = elim (len_loop sb.target_fpr sb.filters 0) [
    | none ↦ none
    | some total ↦ some (u64 (total + sb.current_n))
  ]

  unfoldable pub num_filters : ScalableBloom → ℕ
  num_filters sb = length sb.filters

  -- `Filters` copies the slice, not the filters.
  unfoldable pub sub_filters : ScalableBloom → List (Option BloomFilter)
  sub_filters sb = sb.filters
