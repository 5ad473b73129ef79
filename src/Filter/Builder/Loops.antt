-- ===== src/Filter/Builder/Loops.antt =====
-- `Test` of the scalable filter of builder.go over the sub-filters.
use bloom_filter_jyy_0098_go.Base.{
  ℕ, zero, suc, ◌<◌, ◌≡◌, refl, Option, none, some, List, [], ◌∷◌, ◌++◌, length, get_or, set, arith,
  true, Bool-cases, inl, inr, sym, ap, ◌∙◌, All,
}
use bloom_filter_jyy_0098_go.Filter
use bloom_filter_jyy_0098_go.Filter.{BloomFilter, FilterError, invalid_params}
use bloom_filter_jyy_0098_go.Filter.Valid.{IsValid}
use bloom_filter_jyy_0098_go.Filter.Membership.{test-add_mono}
use bloom_filter_jyy_0098_go.Filter.Builder.{test_loop}

-- A well-formed sub-filter.
pub record IsThere (o : Option BloomFilter) : Type 0 where
  pub filter : BloomFilter
  pub is : o ≡ some filter
  pub valid : IsValid filter

pub there : (f : BloomFilter) → IsValid f → IsThere (some f)
there f v = record { filter = f; is = refl; valid = v }

pub filter_at :
    (fs : List (Option BloomFilter)) (i : ℕ)
    → All IsThere fs
    → i < length fs
    → IsThere (get_or fs i none)
filter_at [] i h b = absurd (omega arith)
filter_at (f ∷ fs) zero h b = h.0
filter_at (f ∷ fs) (suc i) h b = filter_at fs i h.1 (omega arith)

-- A filter that reports an item makes the whole report it.
pub test_loop-at :
    (item : List ℕ) (fs : List (Option BloomFilter)) (i : ℕ) (f : BloomFilter)
    → All IsThere fs
    → get_or fs i none ≡ some f
    → Filter.test f item ≡ true
    → test_loop item fs ≡ some true
unfolding test_loop
test_loop-at item [] i f h at t = ground arith
test_loop-at item (none ∷ fs) i f h at t = ground (arith, h.0.is)
test_loop-at item (some x ∷ fs) zero f h at t = ground (arith, at)
test_loop-at item (some x ∷ fs) (suc i) f h at t = ground (arith, test_loop-at item fs i f h.1 at t)

-- What is reported stays so when another filter comes at the end,
pub test_loop-append :
    (item : List ℕ) (fs gs : List (Option BloomFilter))
    → test_loop item fs ≡ some true
    → test_loop item (fs ++ gs) ≡ some true
unfolding test_loop
test_loop-append item [] gs t = ground arith
test_loop-append item (none ∷ fs) gs t = ground arith
test_loop-append item (some x ∷ fs) gs t = elim (Bool-cases (Filter.test x item)) [
  | inl e ↦ rw e refl
  | inr e ↦ rw e (test_loop-append item fs gs (ground (arith, e)))
]

-- and when an item is added to one of the filters.
pub test_loop-add :
    (item other : List ℕ) (fs : List (Option BloomFilter)) (i : ℕ) (f : BloomFilter)
    → All IsThere fs
    → get_or fs i none ≡ some f
    → IsValid f
    → test_loop item fs ≡ some true
    → test_loop item (set fs i (some (Filter.add f other))) ≡ some true
unfolding test_loop
test_loop-add item other [] i f h at v t = t
test_loop-add item other (none ∷ fs) i f h at v t = ground (arith, t)
test_loop-add item other (some x ∷ fs) zero f h at v t = elim (Bool-cases (Filter.test x item)) [
  | inl e ↦
      let same : x ≡ f = ground (arith, at) in
      rw (test-add_mono f item other v (sym (ap (λ g. Filter.test g item) same) ∙ e)) refl
  | inr e ↦ ground (arith, e)
]
test_loop-add item other (some x ∷ fs) (suc i) f h at v t = elim (Bool-cases (Filter.test x item)) [
  | inl e ↦ rw e refl
  | inr e ↦ rw e (test_loop-add item other fs i f h.1 at v (ground (arith, e)))
]
