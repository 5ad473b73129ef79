-- ===== src/Capacity/Sizes.antt =====
-- The parameters of capacity.go and advisor.go, as filters of that size.
use bloom_filter_jyy_0098_go.Base.{
  ℕ, ◌+◌, ◌-◌, ◌*◌, ◌/◌, ◌^◌, ◌<◌, ◌≡◌, refl, length, length-replicate, ok, arith, false, ne→==, ap,
  u64,
}
use bloom_filter_jyy_0098_go.Float.{Floats}
use bloom_filter_jyy_0098_go.Filter
use bloom_filter_jyy_0098_go.Filter.{BloomFilter}
use bloom_filter_jyy_0098_go.Filter.Valid.{IsValid, new-IsValid}
use bloom_filter_jyy_0098_go.Filter.Sizing.{
  out_of_range, required_bits, optimal_k, false_positive_rate,
}
use bloom_filter_jyy_0098_go.Filter.Builder.Building.{
  IsUint, IsSized, optimal_k-lt, empty, new-eq-empty,
}
use bloom_filter_jyy_0098_go.Filter.Builder.Starting.{required_bits-pos, optimal_k-pos}
use bloom_filter_jyy_0098_go.Capacity.{Params, recommend, remaining}
use bloom_filter_jyy_0098_go.Capacity.Advisor.{memory_budget_plan, optimal_k_for_m, compute_fpr}

-- For ints that are not negative, what remains is the difference, cut off at 0.
pub remaining-eq-minus :
    (fl : Floats) (max_n n : ℕ) → max_n < 2 ^ 63 → n < 2 ^ 63 → remaining fl max_n n ≡ max_n - n
unfolding remaining
remaining-eq-minus fl max_n n h b = ground arith

module _ (fl : Floats) where
  open fl use {F}

  -- There is a well-formed filter of these parameters, and its array has as many bytes as they say.
  pub record IsBuildable (p : Params fl) : Type 0 where
    pub filter : BloomFilter
    pub built : Filter.new p.m p.k ≡ ok filter
    pub valid : IsValid filter
    pub sized : length filter.bits ≡ p.bytes

  -- What parameters for n items at a rate are: the bits that `RequiredBits` gives, the hash functions
  -- that `OptimalK` gives for them, the rate that a filter of that size has with n items, and these
  -- n and rate themselves.
  pub record IsFor (n : ℕ) (fpr : F) (p : Params fl) : Type 0 where
    pub items : p.expected_n ≡ n
    pub target : p.target_fpr ≡ fpr
    pub bits : p.m ≡ required_bits fl n fpr
    pub hashes : p.k ≡ optimal_k fl p.m n
    pub rate :
        (f : BloomFilter) → Filter.new p.m p.k ≡ ok f → p.actual_fpr ≡ false_positive_rate fl f n

  -- Where the size does not wrap, `Recommend` succeeds for a positive number of items and a rate in
  -- range, and the parameters that it returns are those for them, and those of a well-formed filter,
  -- with the number of bytes that it says.
  pub recommend-IsBuildable :
      (n : ℕ) (fpr : F)
      → IsUint fl
      → IsSized fl n fpr
      → 0 < n
      → out_of_range fl fpr ≡ false
      → (p : Params fl) × (recommend fl n fpr ≡ ok p) × IsBuildable p × IsFor n fpr p
  unfolding recommend Filter.bytes_for
  recommend-IsBuildable n fpr u s h e =
      let m = required_bits fl n fpr in
      let k = optimal_k fl m n in
      let made = new-eq-empty fl m k (required_bits-pos fl n fpr) (optimal_k-pos fl m n) in
      (
        record {
          m = m;
          k = k;
          bytes = u64 (m + 7) / 8;
          expected_n = n;
          target_fpr = fpr;
          actual_fpr = false_positive_rate fl (empty fl m k) n;
          bits_per_item = fl.div (fl.of_uint m) (fl.of_uint n);
        },
        rw (recommend, ne→== n 0 (λ q. omega (arith, q)), e, made) refl,
        record {
          filter = empty fl m k;
          built = made;
          valid = new-IsValid m k s (optimal_k-lt fl m n u) made;
          sized = length-replicate (u64 (m + 7) / 8) 0;
        },
        record {
          items = refl;
          target = refl;
          bits = refl;
          hashes = refl;
          rate = λ f new_f. ap (λ g. false_positive_rate fl g n) (ground (arith, made, new_f));
        },
      )

  optimal_k_for_m-bounds :
      (m n : ℕ) → IsUint fl → (0 < optimal_k_for_m fl m n) × (optimal_k_for_m fl m n < 2 ^ 64)
  unfolding optimal_k_for_m
  optimal_k_for_m-bounds m n s =
      let fit = s.word (fl.round (fl.mul (fl.div (fl.of_uint m) (fl.of_uint n)) fl.ln2)) in
      (ground arith, ground (arith, fit))

  -- `MemoryBudgetPlan` succeeds for a positive number of items and a
  -- positive budget below 2^61 bytes less one, and the parameters that it returns are those of a
  -- well-formed filter, whose array takes exactly the budget.
  pub memory_budget_plan-IsBuildable :
      (budget n : ℕ)
      → IsUint fl
      → 0 < budget
      → budget * 8 + 7 < 2 ^ 64
      → 0 < n
      → (p : Params fl) × (memory_budget_plan fl budget n ≡ ok p)
        × IsBuildable p
        × (p.bytes ≡ budget)
  unfolding memory_budget_plan Filter.bytes_for
  memory_budget_plan-IsBuildable budget n s h fit b =
      let m = u64 (budget * 8) in
      let k = optimal_k_for_m fl m n in
      let pm : 0 < m = omega arith in
      let ks = optimal_k_for_m-bounds m n s in
      let made = new-eq-empty fl m k pm ks.0 in
      let rate = compute_fpr fl m k n in
      (
        record {
          m = m;
          k = k;
          bytes = budget;
          expected_n = n;
          target_fpr = rate;
          actual_fpr = rate;
          bits_per_item = fl.div (fl.of_uint m) (fl.of_uint n);
        },
        rw
            (
              memory_budget_plan,
              ne→== budget 0 (λ q. omega (arith, q)),
              ne→== n 0 (λ q. omega (arith, q)),
            )
            refl,
        record {
          filter = empty fl m k;
          built = made;
          valid = new-IsValid m k (omega arith) ks.1 made;
          sized = omega (arith, length-replicate {A = ℕ} (u64 (m + 7) / 8) 0);
        },
        refl,
      )
