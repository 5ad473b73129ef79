-- ===== src/Counting/Merged.antt =====
-- `Merge` of snapshot.go, seen as an operation on the counts of two filters.
use bloom_filter_jyy_0098_go.Base.{
  ℕ, zero, suc, ◌+◌, ◌^◌, ◌<◌, ◌≤◌, ◌≡◌, ◌∙◌, arith, ltb, leb, ◌&&◌, if◌then◌else◌, ok, some, min,
  ==_iff, u64,
}
use bloom_filter_jyy_0098_go.Counting.{CountingFilter, get_counter, set_counter}
use bloom_filter_jyy_0098_go.Counting.Positions.{IsCounting}
use bloom_filter_jyy_0098_go.Counting.Counters.{get_counter-set_counter}
use bloom_filter_jyy_0098_go.Counting.Tallies.{max_count-eq, kept-set_counter}
use bloom_filter_jyy_0098_go.Counting.Removal.{
  with_count, with_count-IsCounting, get_counter-with_count,
}
use bloom_filter_jyy_0098_go.Counting.Snapshot.{merge_loop, merge}

-- The sum that `Merge` writes.
abbrev clamped : CountingFilter → CountingFilter → ℕ → ℕ
clamped f other q = min f.max_count (get_counter f q + get_counter other q)

record IsMerged (other : CountingFilter) (i left : ℕ) (f g : CountingFilter) : Type 0 where
  valid : IsCounting g
  counters :
      (q : ℕ)
      → q < f.m
      → get_counter g q
        ≡ (if leb i q && ltb q (i + left) then clamped f other q else get_counter f q)

merge_loop-IsMerged :
    (other f : CountingFilter) (left i : ℕ)
    → IsCounting f
    → i + left ≤ f.m
    → IsMerged other i left f (merge_loop other left i f)
unfolding merge_loop
merge_loop-IsMerged other f zero i v room = record { valid = v; counters = λ q hq. ground arith }
merge_loop-IsMerged other f (suc left) i v room =
    let sum = get_counter f i + get_counter other i in
    let val = if ltb f.max_count sum then f.max_count else sum in
    let small : val < 2 ^ f.counter_bits = ground (arith, max_count-eq f v) in
    let after =
      λ (q : ℕ) (hq : q < f.m). get_counter-set_counter f i q val v (omega arith) hq small in
    let kept = kept-set_counter f i val in
    let rest =
      merge_loop-IsMerged other (set_counter f i val) left (i + 1) (after i (omega arith)).1
        (omega (arith, kept)) in
    record {
      valid = rest.valid;
      counters = λ q hq. ground (arith, kept, rest.counters q, after q hq, ==_iff i q);
    }

-- `Merge` of two valid counting filters with the same parameters succeeds and leaves the first
-- valid; each of its counters is then the sum of both, or the maximum where the sum is higher.
pub counters-merge :
    (f other : CountingFilter)
    → IsCounting f
    → other.m ≡ f.m
    → other.k ≡ f.k
    → other.counter_bits ≡ f.counter_bits
    → (h : CountingFilter) × (merge f (some other) ≡ ok h)
      × IsCounting h
      × ((q : ℕ)
          → q < f.m
          → get_counter h q ≡ min f.max_count (get_counter f q + get_counter other q))
unfolding merge with_count
counters-merge f other v em ek eb =
    let g = merge_loop other f.m 0 f in
    let r = merge_loop-IsMerged other f f.m 0 v (omega arith) in
    let n = u64 (g.count + other.count) in
    (
      with_count g n,
      ground (arith, em, ek, eb),
      with_count-IsCounting g n r.valid,
      λ q hq. get_counter-with_count g n q ∙ ground (arith, r.counters q hq),
    )
