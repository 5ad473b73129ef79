-- ===== src/Counting/Multiset.antt =====
-- A counting filter as a multiset of items: how often each position is counted.
pub mod Runs
use bloom_filter_jyy_0098_go.Base.{
  ◌-◌, ◌^◌, ◌^◌, ℕ, ◌+◌, ◌<◌, ◌≡◌, sym, ap, ◌∙◌, subst, List, [], ◌∷◌, ◌++◌, length, arith, true,
  not, ◌==◌, if◌then◌else◌, ok, u64, ◌≤◌, length-append,
}
use bloom_filter_jyy_0098_go.Filter.Sets.{member}
use bloom_filter_jyy_0098_go.Counting.{
  CountingFilter, get_counter, positions, add, test, remove, step_counters, down,
}
use bloom_filter_jyy_0098_go.Counting.Positions.{IsCounting}
use bloom_filter_jyy_0098_go.Counting.Tallies.{
  IsDistinct, all_counters-of, max_count-eq, member-positions-lt, step_counters-IsStepped,
}
use bloom_filter_jyy_0098_go.Counting.Removal.{add-Changed, with_count, Changed-of, remove_runs}

-- How many items of the list have the position.
unfoldable pub tally : (List ℕ → List ℕ) → List (List ℕ) → ℕ → ℕ
tally at [] q = 0
tally at (x ∷ xs) q = (if member q (at x) then 1 else 0) + tally at xs q

tally-append :
    (at : List ℕ → List ℕ) (xs ys : List (List ℕ)) (q : ℕ)
    → tally at (xs ++ ys) q ≡ tally at xs q + tally at ys q
unfolding tally
tally-append at [] ys q = omega arith
tally-append at (x ∷ xs) ys q = omega (arith, tally-append at xs ys q)

-- Each counter of the filter is the number of items that have its position, and `count` is the
-- number of items in 64 bits. `at` gives the positions of an item.
pub record IsTally (at : List ℕ → List ℕ) (f : CountingFilter) (items : List (List ℕ))
    : Type 0 where
  pub valid : IsCounting f
  pub same_positions : (item : List ℕ) → positions f item ≡ at item
  pub count : f.count ≡ u64 (length items)
  pub counters : (q : ℕ) → q < f.m → get_counter f q ≡ tally at items q
  pub bounded : (q : ℕ) → q < f.m → get_counter f q ≤ f.max_count

module _ (at : List ℕ → List ℕ) where
  pub add-IsTally :
      (f g : CountingFilter) (items : List (List ℕ)) (item : List ℕ)
      → IsTally at f items
      → IsDistinct (at item)
      → add f item ≡ ok g
      → IsTally at g (item ∷ items)
  unfolding tally
  add-IsTally f g items item t d e =
      let a = add-Changed f item t.valid (subst IsDistinct (sym (t.same_positions item)) d) e in
      record {
        valid = a.0.valid;
        same_positions = λ other. a.0.same_positions other ∙ t.same_positions other;
        count = omega (arith, a.1, t.count);
        counters = λ q hq. ground (
          arith,
          a.0.counters q,
          a.0.same_m,
          a.2 q,
          max_count-eq f t.valid,
          t.counters q,
          t.same_positions item,
        );
        bounded = λ q hq. ground (
          arith,
          a.0.counters q,
          a.0.same_m,
          a.0.same_max,
          a.2 q,
          max_count-eq f t.valid,
          t.bounded q,
        );
      }

  -- A position of an item in the middle of the list is counted.
  counted :
      (f : CountingFilter) (before after : List (List ℕ)) (item : List ℕ) (q : ℕ)
      → IsTally at f (before ++ item ∷ after)
      → member q (positions f item) ≡ true
      → (q < f.m) × (get_counter f q ≡ tally at (before ++ after) q + 1)
  unfolding tally
  counted f before after item q t h =
      let hq = member-positions-lt f item q t.valid h in
      (
        hq,
        ground (
          arith,
          t.counters q hq,
          tally-append at before (item ∷ after) q,
          tally-append at before after q,
          ap (member q) (t.same_positions item),
          h,
        ),
      )

  pub test-IsTally :
      (f : CountingFilter) (before after : List (List ℕ)) (item : List ℕ)
      → IsTally at f (before ++ item ∷ after)
      → test f item ≡ true
  unfolding test
  test-IsTally f before after item t =
      all_counters-of (λ n. not (n == 0)) f (positions f item)
        (λ q h. ground (arith, counted f before after item q t h))

  pub remove-IsTally :
      (f : CountingFilter) (before after : List (List ℕ)) (item : List ℕ)
      → IsTally at f (before ++ item ∷ after)
      → IsDistinct (at item)
      → (g : CountingFilter) × (remove f item ≡ ok g) × IsTally at g (before ++ after)
  unfolding with_count tally
  remove-IsTally f before after item t d =
      let ps = positions f item in
      let low = step_counters down f ps in
      let n = u64 (low.count + (2 ^ 64 - 1)) in
      let s =
        step_counters-IsStepped down f ps t.valid (subst IsDistinct (sym (t.same_positions item)) d)
          (λ q h. (
            (counted f before after item q t h).0,
            omega (
              arith,
              counted f before after item q t h,
              t.bounded q (counted f before after item q t h).0,
              max_count-eq f t.valid,
            ),
          )) in
      let c = Changed-of down f item low n s in
      let rest : (q : ℕ)
          → q < low.m
          → (get_counter (with_count low n) q ≡ tally at (before ++ after) q)
            × (get_counter (with_count low n) q ≤ low.max_count) =
        λ q hq. ground (
          arith,
          c.counters q,
          s.same_m,
          s.same_max,
          t.counters q,
          t.bounded q,
          max_count-eq f t.valid,
          counted f before after item q t,
          tally-append at before (item ∷ after) q,
          tally-append at before after q,
          ap (member q) (t.same_positions item),
        ) in
      (
        with_count low n,
        remove_runs f item (
            all_counters-of (λ n. not (n == 0)) f ps
              (λ q h. ground (arith, counted f before after item q t h))),
        record {
          valid = c.valid;
          same_positions = λ other. c.same_positions other ∙ t.same_positions other;
          count = omega (
            arith,
            s.same_count,
            t.count,
            length-append before after,
            length-append before (item ∷ after),
          );
          counters = λ q hq. (rest q hq).0;
          bounded = λ q hq. (rest q hq).1;
        },
      )
