-- ===== src/Filter/Builder/Growing.antt =====
-- The scalable filter of builder.go: it never loses an item.
use bloom_filter_jyy_0098_go.Base.{
  u64, suc, ℕ, ◌+◌, ◌-◌, ◌<◌, ◌≡◌, refl, Option, none, some, List, [], ◌∷◌, ◌++◌, length, set, ok,
  err, arith, true, Bool-cases, inl, inr, ◌⊎◌, ◌∙◌, All, All-set, All-append, length-set,
  length-append, get_or-set_self, int_le, if◌then◌else◌, ◌==◌, ◌||◌,
}
use bloom_filter_jyy_0098_go.Float.{Floats}
use bloom_filter_jyy_0098_go.Filter
use bloom_filter_jyy_0098_go.Filter.{BloomFilter, FilterError, invalid_params}
use bloom_filter_jyy_0098_go.Filter.Valid.{IsValid, add-IsValid}
use bloom_filter_jyy_0098_go.Filter.Membership
use bloom_filter_jyy_0098_go.Filter.Membership.{test-add_mono}
use bloom_filter_jyy_0098_go.Filter.Sizing.{
  new_from_capacity, max_insertions, required_bits, optimal_k,
}
use bloom_filter_jyy_0098_go.Filter.Builder.{
  ScalableBloom, next_filter, grow, add_active, add, test, scaled,
}
use bloom_filter_jyy_0098_go.Filter.Builder.Building.{
  empty, IsUint, IsSized, new_from_capacity-IsValid, new_from_capacity-eq-new,
}
use bloom_filter_jyy_0098_go.Filter.Builder.Sizes.{grown_size, IsRoomy, IsGrown, IsGrown-IsRoomy}
use bloom_filter_jyy_0098_go.Filter.Builder.Loops.{
  IsThere, there, filter_at, test_loop-at, test_loop-append, test_loop-add,
}

module _ (fl : Floats) where
  open fl use {F}

  -- There is a sub-filter, all of them are well-formed, and the first size is one that
  -- `NewFromCapacity` accepts.
  pub record IsScalable (sb : ScalableBloom fl) : Type 0 where
    pub some_filters : 0 < length sb.filters
    pub there : All IsThere sb.filters
    pub first : BloomFilter
    pub base : new_from_capacity fl sb.init_cap sb.target_fpr ≡ ok first

  capacity-cases :
      (cap : ℕ) (fpr : F)
      → (new_from_capacity fl cap fpr ≡ err invalid_params)
        ⊎ ((f : BloomFilter) × (new_from_capacity fl cap fpr ≡ ok f))
  unfolding Filter.new
  capacity-cases cap fpr = elim (new_from_capacity-eq-new fl cap fpr) [
    | inl bad ↦ inl bad
    | inr good ↦
        let m = required_bits fl cap fpr in
        let k = optimal_k fl m cap in
        elim (Bool-cases ((m == 0) || (k == 0))) [
          | inl e ↦ inl (good ∙ rw e refl)
          | inr e ↦ inr (empty fl m k, good ∙ rw e refl)
        ]
  ]

  -- Whatever the capacity, there is a next sub-filter.
  next_filter-there :
      (sb : ScalableBloom fl) (cap : ℕ) (fpr : F)
      → IsUint fl
      → IsSized fl sb.init_cap sb.target_fpr
      → IsSized fl cap fpr
      → IsScalable sb
      → (f : BloomFilter) × (next_filter fl sb cap fpr ≡ some f) × IsValid f
  unfolding next_filter
  next_filter-there sb c fpr u first s v = elim (capacity-cases c fpr) [
    | inl bad ↦ (
      v.first,
      rw (next_filter, bad, v.base) refl,
      new_from_capacity-IsValid fl sb.init_cap sb.target_fpr u first v.base,
    )
    | inr good ↦
        (good.0, rw (next_filter, good.1) refl, new_from_capacity-IsValid fl c fpr u s good.1)
  ]

  grow-IsScalable :
      (sb : ScalableBloom fl)
      → IsRoomy fl sb (length sb.filters + 1)
      → IsScalable sb
      → (g : ScalableBloom fl) × (nf : BloomFilter) × (grow fl sb ≡ some g)
        × IsScalable g
        × (g.filters ≡ sb.filters ++ some nf ∷ [])
        × IsGrown fl sb g
  unfolding grow grown_size
  grow-IsScalable sb s v =
      let at = scaled fl sb (length sb.filters) sb.init_cap sb.target_fpr in
      let fpr = if fl.lt at.1 (fl.decimal 1 10) then fl.decimal 1 10 else at.1 in
      let sized = s.grown (length sb.filters) (omega arith) (omega arith) in
      let nf = next_filter-there sb at.0 fpr s.word s.first sized v in
      let filters = sb.filters ++ some nf.0 ∷ [] in
      let max_n = max_insertions fl nf.0 fpr in
      (
        record sb {
          filters = filters;
          current_n = 0;
          max_n = if int_le max_n 0 then at.0 else max_n;
        },
        nf.0,
        rw (grow, nf.1) refl,
        record {
          some_filters = omega (arith, length-append sb.filters (some nf.0 ∷ []));
          there = All-append IsThere sb.filters (some nf.0 ∷ []) v.there (there nf.0 nf.2, tt);
          first = v.first;
          base = v.base;
        },
        refl,
        record {
          init_cap = refl;
          target_fpr = refl;
          fpr_scale = refl;
          growth_factor = refl;
          longer = omega (arith, length-append sb.filters (some nf.0 ∷ []));
          by_one = omega (arith, length-append sb.filters (some nf.0 ∷ []));
        },
      )

  -- `Add` without `grow`.
  add_active-IsScalable :
      (item : List ℕ) (sb : ScalableBloom fl)
      → IsScalable sb
      → (sb' : ScalableBloom fl) × (add_active fl item sb ≡ some sb')
        × IsScalable sb'
        × (test fl item sb' ≡ some true)
        × ((old : List ℕ) → test fl old sb ≡ some true → test fl old sb' ≡ some true)
        × (length sb'.filters ≡ length sb.filters)
        × IsGrown fl sb sb'
  unfolding add_active test
  add_active-IsScalable item sb v =
      let last = length sb.filters - 1 in
      let b : last < length sb.filters = omega (arith, v.some_filters) in
      let f = filter_at sb.filters last v.there b in
      let f' = Filter.add f.filter item in
      let filters = set sb.filters last (some f') in
      let there' =
        All-set IsThere sb.filters last (some f') v.there
          (there f' (add-IsValid f.filter item f.valid)) in
      (
        record sb { filters = filters; current_n = u64 (sb.current_n + 1) },
        rw (add_active, f.is) refl,
        record {
          some_filters = omega (arith, length-set sb.filters last (some f'), v.some_filters);
          there = there';
          first = v.first;
          base = v.base;
        },
        test_loop-at item filters last f' there' (get_or-set_self sb.filters last (some f') none b)
            (Membership.test-add f.filter item f.valid),
        λ old t. test_loop-add old item sb.filters last f.filter v.there f.is f.valid t,
        length-set sb.filters last (some f'),
        record {
          init_cap = refl;
          target_fpr = refl;
          fpr_scale = refl;
          growth_factor = refl;
          longer = omega (arith, length-set sb.filters last (some f'));
          by_one = omega (arith, length-set sb.filters last (some f'));
        },
      )

  add-IsScalable :
      (item : List ℕ) (sb : ScalableBloom fl)
      → IsRoomy fl sb (length sb.filters + 1)
      → IsScalable sb
      → (sb' : ScalableBloom fl) × (add fl item sb ≡ some sb')
        × IsScalable sb'
        × (test fl item sb' ≡ some true)
        × ((old : List ℕ) → test fl old sb ≡ some true → test fl old sb' ≡ some true)
        × IsGrown fl sb sb'
  unfolding test add
  add-IsScalable item sb s v = elim (Bool-cases (int_le sb.max_n sb.current_n)) [
    | inl full ↦
        let g = grow-IsScalable sb s v in
        let a = add_active-IsScalable item g.0 g.3 in
        (
          a.0,
          rw (add, full, g.2) a.1,
          a.2,
          a.3,
          λ old t. a.4 old (rw (g.4) (test_loop-append old sb.filters (some g.1 ∷ []) t)),
          record {
            init_cap = (a.6).init_cap ∙ (g.5).init_cap;
            target_fpr = (a.6).target_fpr ∙ (g.5).target_fpr;
            fpr_scale = (a.6).fpr_scale ∙ (g.5).fpr_scale;
            growth_factor = (a.6).growth_factor ∙ (g.5).growth_factor;
            longer = omega (arith, a.5, (g.5).longer);
            by_one = omega (arith, a.5, (g.5).by_one);
          },
        )
    | inr room ↦
        let a = add_active-IsScalable item sb v in (a.0, rw (add, room) a.1, a.2, a.3, a.4, a.6)
  ]

  -- Several calls of `Add`.
  unfoldable pub adds : List (List ℕ) → ScalableBloom fl → Option (ScalableBloom fl)
  adds [] sb = some sb
  adds (item ∷ items) sb = elim (add fl item sb) [ none ↦ none | some sb' ↦ adds items sb' ]

  IsGrown-same : (sb : ScalableBloom fl) → IsGrown fl sb sb
  IsGrown-same sb = record {
    init_cap = refl;
    target_fpr = refl;
    fpr_scale = refl;
    growth_factor = refl;
    longer = omega arith;
    by_one = omega arith;
  }

  adds-IsScalable :
      (items : List (List ℕ)) (sb : ScalableBloom fl)
      → IsRoomy fl sb (length sb.filters + length items)
      → IsScalable sb
      → (sb' : ScalableBloom fl) × (adds items sb ≡ some sb')
        × IsScalable sb'
        × All (λ item. test fl item sb' ≡ some true) items
        × ((old : List ℕ) → test fl old sb ≡ some true → test fl old sb' ≡ some true)
  unfolding adds
  adds-IsScalable [] sb s v = (sb, refl, v, tt, λ old t. t)
  adds-IsScalable (x ∷ xs) sb s v =
      let now = length sb.filters + 1 in
      let all = length sb.filters + suc (length xs) in
      let same = IsGrown-same sb in
      let a = add-IsScalable x sb (IsGrown-IsRoomy fl sb sb all now same (omega arith) s) v in
      let then_on = length (a.0).filters + length xs in
      let more = IsGrown-IsRoomy fl sb a.0 all then_on a.5 (omega (arith, (a.5).by_one)) s in
      let rest = adds-IsScalable xs a.0 more a.2 in
      (
        rest.0,
        rw (adds, a.1) rest.1,
        rest.2,
        (rest.4 x a.3, rest.3),
        λ old t. rest.4 old (a.4 old t),
      )

  -- Several calls of `Add` to a well-formed scalable filter, where neither the size of its first
  -- sub-filter wraps nor the sizes of as many further ones as there are calls, do not panic,
  -- whichever of them make it grow, leave it well-formed, and then `Test` reports every item that
  -- they added.
  pub test-adds :
      (items : List (List ℕ)) (sb : ScalableBloom fl)
      → IsRoomy fl sb (length sb.filters + length items)
      → IsScalable sb
      → (sb' : ScalableBloom fl) × (adds items sb ≡ some sb')
        × IsScalable sb'
        × All (λ item. test fl item sb' ≡ some true) items
  test-adds items sb s v = let a = adds-IsScalable items sb s v in (a.0, a.1, a.2, a.3)
