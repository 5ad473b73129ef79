-- ===== src/Counting/Removal.antt =====
-- `Add` and `Remove` of counting.go, one after the other.
use bloom_filter_jyy_0098_go.Base.{
  ℕ, ◌+◌, ◌-◌, ◌^◌, ◌<◌, ◌≡◌, ◌⊎◌, refl, sym, ◌∙◌, ap, ap₂, List, arith, true, not, ltb, ◌==◌,
  if◌then◌else◌, ok, inl, inr, u64, subst,
}
use bloom_filter_jyy_0098_go.Filter.Sets.{member}
use bloom_filter_jyy_0098_go.Counting.{
  CountingFilter, get_counter, positions, all_counters, step_counters, up, down, add, remove, test,
  indices,
}
use bloom_filter_jyy_0098_go.Counting.Positions.{IsCounting}
use bloom_filter_jyy_0098_go.Counting.Tallies.{
  IsDistinct, IsStepped, step_counters-IsStepped, all_counters-member, all_counters-of,
  max_count-eq, member-positions-lt,
}

unfoldable pub with_count : CountingFilter → ℕ → CountingFilter
with_count f n = record f { count = n }

pub with_count-IsCounting :
    (f : CountingFilter) (n : ℕ) → IsCounting f → IsCounting (with_count f n)
unfolding with_count
with_count-IsCounting f n v = record {
  m_pos = v.m_pos;
  k_pos = v.k_pos;
  counter_pos = v.counter_pos;
  counter_few = v.counter_few;
  no_wrap = v.no_wrap;
  max_is = v.max_is;
  sized = v.sized;
  all_bytes = v.all_bytes;
}

pub get_counter-with_count :
    (f : CountingFilter) (n q : ℕ) → get_counter (with_count f n) q ≡ get_counter f q
unfolding with_count get_counter
get_counter-with_count f n q = refl

positions-same :
    (f g : CountingFilter) (item : List ℕ)
    → g.m ≡ f.m
    → g.k ≡ f.k
    → positions g item ≡ positions f item
unfolding positions
positions-same f g item em ek = ap₂ (λ m k. indices item m k 0) em ek

-- What an `Add` or a `Remove` that succeeds did.
pub record Changed (step : ℕ → ℕ) (f : CountingFilter) (item : List ℕ) (g : CountingFilter)
    : Type 0 where
  pub valid : IsCounting g
  pub same_max : g.max_count ≡ f.max_count
  pub same_m : g.m ≡ f.m
  pub same_bits : g.counter_bits ≡ f.counter_bits
  pub same_positions : (other : List ℕ) → positions g other ≡ positions f other
  pub counters :
      (q : ℕ)
      → q < f.m
      → get_counter g q
        ≡ (if member q (positions f item) then step (get_counter f q) else get_counter f q)

pub Changed-of :
    (step : ℕ → ℕ) (f : CountingFilter) (item : List ℕ) (g : CountingFilter) (n : ℕ)
    → IsStepped step (positions f item) f g
    → Changed step f item (with_count g n)
unfolding with_count
Changed-of step f item g n s = record {
  valid = with_count-IsCounting g n s.valid;
  same_max = s.same_max;
  same_m = s.same_m;
  same_bits = s.same_bits;
  same_positions = λ other. positions-same f (with_count g n) other s.same_m s.same_k;
  counters = λ q hq. get_counter-with_count g n q ∙ s.counters q hq;
}

add_cases :
    (f : CountingFilter) (item : List ℕ) {g : CountingFilter}
    → add f item ≡ ok g
    → let up' = step_counters up f (positions f item) in
      (all_counters (λ n. ltb n f.max_count) f (positions f item) ≡ true)
      × (g ≡ with_count up' (u64 (up'.count + 1)))
unfolding add with_count
add_cases f item e = ground arith

pub remove_runs :
    (f : CountingFilter) (item : List ℕ)
    → all_counters (λ n. not (n == 0)) f (positions f item) ≡ true
    → let down' = step_counters down f (positions f item) in
      remove f item ≡ ok (with_count down' (u64 (down'.count + (2 ^ 64 - 1))))
unfolding remove with_count
remove_runs f item e = ground (arith, e)

module _ (f : CountingFilter) (item : List ℕ) (v : IsCounting f)
    (d : IsDistinct (positions f item)) where
  -- A position of the item is in range, and below the maximum if `Add` succeeds.
  low :
      (q : ℕ)
      → all_counters (λ n. ltb n f.max_count) f (positions f item) ≡ true
      → member q (positions f item) ≡ true
      → (q < f.m) × (get_counter f q < f.max_count)
  low q e h = (
    member-positions-lt f item q v h,
    ground (arith, all_counters-member (λ n. ltb n f.max_count) f (positions f item) q e h),
  )

  pub add-Changed :
      {g : CountingFilter}
      → add f item ≡ ok g
      → Changed up f item g
        × (g.count ≡ u64 (f.count + 1))
        × ((q : ℕ) → member q (positions f item) ≡ true → get_counter f q < f.max_count)
  unfolding with_count
  add-Changed {g} e =
      let c = add_cases f item e in
      let s = step_counters-IsStepped up f (positions f item) v d (λ q h.
        (member-positions-lt f item q v h, ground (arith, low q c.0 h, max_count-eq f v))) in
      (
        subst (Changed up f item) (sym c.1) (Changed-of up f item _ _ s),
        ap (λ (h : CountingFilter). h.count) c.1 ∙ ap (λ n. u64 (n + 1)) s.same_count,
        λ q h. (low q c.0 h).1,
      )

-- The counters of an item that `Test` reports.
reported :
    (f : CountingFilter) (other : List ℕ)
    → test f other ≡ true
    → (q : ℕ) → member q (positions f other) ≡ true
    → 0 < get_counter f q
unfolding test
reported f other t q h =
    ground (arith, all_counters-member (λ n. not (n == 0)) f (positions f other) q t h)

-- `Test` after an `Add`.
test-Changed :
    (f : CountingFilter) (item other : List ℕ) {g : CountingFilter}
    → IsCounting f
    → Changed up f item g
    → ((q : ℕ) → member q (positions f item) ≡ true → get_counter f q < f.max_count)
    → ((q : ℕ)
        → member q (positions f other) ≡ true
        → (member q (positions f item) ≡ true) ⊎ (0 < get_counter f q))
    → test g other ≡ true
unfolding test
test-Changed f item other {g} v c room on =
    all_counters-of (λ n. not (n == 0)) g (positions g other)
      (λ q h.
        let h' : member q (positions f other) ≡ true =
          ap (member q) (sym (c.same_positions other)) ∙ h in
        let hq = member-positions-lt f other q v h' in
        ground (arith, c.counters q hq, on q h', room q, max_count-eq f v))

-- `Add` of an item whose positions are distinct, on a valid counting filter where it succeeds,
-- raises the counters of these positions by one and no other, and leaves the filter valid; then
-- `Test` reports the item, and every item that it reported before.
pub test-add :
    (f g : CountingFilter) (item : List ℕ)
    → IsCounting f
    → IsDistinct (positions f item)
    → add f item ≡ ok g
    → IsCounting g
      × (test g item ≡ true)
      × ((q : ℕ)
          → q < f.m
          → get_counter g q
            ≡ (if member q (positions f item) then get_counter f q + 1 else get_counter f q))
      × ((other : List ℕ) → test f other ≡ true → test g other ≡ true)
test-add f g item v d e =
    let a = add-Changed f item v d e in
    (
      a.0.valid,
      test-Changed f item item v a.0 a.2 (λ q h. inl h),
      λ q hq. ground (arith, a.0.counters q hq, a.2 q, max_count-eq f v),
      λ other t. test-Changed f item other v a.0 a.2 (λ q h. inr (reported f other t q h)),
    )

-- A counter of the item after its `Add`.
was_added :
    (f g : CountingFilter) (item : List ℕ)
    → IsCounting f
    → Changed up f item g
      × (g.count ≡ u64 (f.count + 1))
      × ((q : ℕ) → member q (positions f item) ≡ true → get_counter f q < f.max_count)
    → (q : ℕ) → member q (positions g item) ≡ true
    → (q < f.m) × (get_counter g q ≡ get_counter f q + 1) × (get_counter f q < f.max_count)
was_added f g item v a q h =
    let h' : member q (positions f item) ≡ true =
      ap (member q) (sym (a.0.same_positions item)) ∙ h in
    let hq = member-positions-lt f item q v h' in
    (hq, ground (arith, a.0.counters q hq, a.2 q h', max_count-eq f v), a.2 q h')

-- `Remove` of the item that a successful `Add` put into a valid counting filter, where the item's
-- positions are distinct and the count is a 64-bit number, succeeds, leaves the filter valid, and
-- gives back the count and every counter from before the `Add`.
pub remove-add :
    (f g : CountingFilter) (item : List ℕ)
    → IsCounting f
    → IsDistinct (positions f item)
    → f.count < 2 ^ 64
    → add f item ≡ ok g
    → (h : CountingFilter) × (remove g item ≡ ok h)
      × IsCounting h
      × (h.count ≡ f.count)
      × ((q : ℕ) → q < f.m → get_counter h q ≡ get_counter f q)
unfolding with_count
remove-add f g item v d fits e =
    let a = add-Changed f item v d e in
    let ps = positions g item in
    let low = step_counters down g ps in
    let at = λ (q : ℕ) (h : member q ps ≡ true). was_added f g item v a q h in
    let s =
      step_counters-IsStepped down g ps a.0.valid
        (subst IsDistinct (sym (a.0.same_positions item)) d)
        (λ q h. (
          omega (arith, a.0.same_m, at q h),
          omega (arith, at q h, max_count-eq g a.0.valid, a.0.same_max),
        )) in
    (
      with_count low (u64 (low.count + (2 ^ 64 - 1))),
      remove_runs g item (all_counters-of (λ n. not (n == 0)) g ps (λ q h. ground (arith, at q h))),
      with_count-IsCounting low (u64 (low.count + (2 ^ 64 - 1))) s.valid,
      omega (arith, s.same_count, a.1),
      λ q hq.
          get_counter-with_count low (u64 (low.count + (2 ^ 64 - 1))) q
          ∙ ground (
            arith,
            s.counters q,
            a.0.same_m,
            a.0.counters q hq,
            a.0.same_positions item,
            a.2 q,
            max_count-eq f v,
          ),
    )
