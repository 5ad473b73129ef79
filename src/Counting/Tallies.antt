-- ===== src/Counting/Tallies.antt =====
-- `Add`, `Remove` and `Test` of counting.go, seen as operations on a map from positions to counts.
use bloom_filter_jyy_0098_go.Base.{
  ℕ, zero, suc, ◌+◌, ◌^◌, ◌<◌, ◌≡◌, refl, ◌∙◌, ap, List, [], ◌∷◌, arith, Bool, true, false, ==_iff,
  ==_refl, if◌then◌else◌, agree_below, agree_below-eq,
}
use bloom_filter_jyy_0098_go.Hash.Bounds.{hash-lt}
use bloom_filter_jyy_0098_go.Filter.Sets.{member}
use bloom_filter_jyy_0098_go.Counting.{
  CountingFilter, max_of, get_counter, set_counter, indices, positions, all_counters, step_counters,
}
use bloom_filter_jyy_0098_go.Counting.Positions.{IsCounting}
use bloom_filter_jyy_0098_go.Counting.Counters.{get_counter-set_counter}

-- No position stands twice in the list.
abbrev pub IsDistinct : List ℕ → Type 0
IsDistinct [] = Unit
IsDistinct (p ∷ ps) = (member p ps ≡ false) × IsDistinct ps

member-indices-lt :
    (item : List ℕ) (m left i q : ℕ) → 0 < m → member q (indices item m left i) ≡ true → q < m
unfolding member indices
member-indices-lt item m zero i q h e = absurd (ground arith)
member-indices-lt item m (suc left) i q h e =
    ground (arith, hash-lt item i m h, member-indices-lt item m left (i + 1) q h)

pub member-positions-lt :
    (f : CountingFilter) (item : List ℕ) (q : ℕ)
    → IsCounting f
    → member q (positions f item) ≡ true
    → q < f.m
unfolding positions
member-positions-lt f item q v e = member-indices-lt item f.m f.k 0 q v.m_pos e

max_table : agree_below (λ c. max_of c + 1) (λ c. 2 ^ c) 9 ≡ true
unfolding agree_below max_of
max_table = refl

-- The maximum is the highest number of `counter_bits` bits, and it is a byte.
pub max_count-eq :
    (f : CountingFilter)
    → IsCounting f
    → (f.max_count + 1 ≡ 2 ^ f.counter_bits) × (f.max_count < 256)
unfolding max_of
max_count-eq f v = (
  ap (λ t. t + 1) v.max_is
      ∙ agree_below-eq (λ c. max_of c + 1) (λ c. 2 ^ c) 9 (omega (arith, v.counter_few)) max_table,
  omega (arith, v.max_is),
)

pub all_counters-member :
    (passes : ℕ → Bool) (f : CountingFilter) (ps : List ℕ) (q : ℕ)
    → all_counters passes f ps ≡ true
    → member q ps ≡ true
    → passes (get_counter f q) ≡ true
unfolding all_counters member
all_counters-member passes f [] q h e = absurd (ground arith)
all_counters-member passes f (p ∷ ps) q h e =
    ground (arith, ==_iff p q, all_counters-member passes f ps q)

pub all_counters-of :
    (passes : ℕ → Bool) (f : CountingFilter) (ps : List ℕ)
    → ((q : ℕ) → member q ps ≡ true → passes (get_counter f q) ≡ true)
    → all_counters passes f ps ≡ true
unfolding all_counters member
all_counters-of passes f [] h = refl
all_counters-of passes f (p ∷ ps) h =
    ground (arith, h p, ==_refl p, all_counters-of passes f ps (λ q e. h q (ground arith)))

-- The filter `g` is `f` with the counters at the positions `ps` stepped.
pub record IsStepped (step : ℕ → ℕ) (ps : List ℕ) (f g : CountingFilter) : Type 0 where
  pub valid : IsCounting g
  pub same_m : g.m ≡ f.m
  pub same_k : g.k ≡ f.k
  pub same_bits : g.counter_bits ≡ f.counter_bits
  pub same_max : g.max_count ≡ f.max_count
  pub same_count : g.count ≡ f.count
  pub counters :
      (q : ℕ)
      → q < f.m
      → get_counter g q ≡ (if member q ps then step (get_counter f q) else get_counter f q)

pub kept-set_counter :
    (f : CountingFilter) (p val : ℕ)
    → ((set_counter f p val).m ≡ f.m)
      × ((set_counter f p val).k ≡ f.k)
      × ((set_counter f p val).counter_bits ≡ f.counter_bits)
      × ((set_counter f p val).max_count ≡ f.max_count)
      × ((set_counter f p val).count ≡ f.count)
unfolding set_counter
kept-set_counter f p val = (refl, refl, refl, refl, refl)

-- The loop over distinct positions steps each of them once, where the new values fit.
pub step_counters-IsStepped :
    (step : ℕ → ℕ) (f : CountingFilter) (ps : List ℕ)
    → IsCounting f
    → IsDistinct ps
    → ((q : ℕ) → member q ps ≡ true → (q < f.m) × (step (get_counter f q) < 2 ^ f.counter_bits))
    → IsStepped step ps f (step_counters step f ps)
unfolding step_counters member
step_counters-IsStepped step f [] v d h = record {
  valid = v;
  same_m = refl;
  same_k = refl;
  same_bits = refl;
  same_max = refl;
  same_count = refl;
  counters = λ q hq. refl;
}
step_counters-IsStepped step f (p ∷ ps) v d h =
    let val = step (get_counter f p) in
    let f' = set_counter f p val in
    let here = h p (ground (arith, ==_refl p)) in
    let w = (get_counter-set_counter f p p val v here.0 here.0 here.1).1 in
    let kept = kept-set_counter f p val in
    let after =
      λ (q : ℕ) (hq : q < f.m). (get_counter-set_counter f p q val v here.0 hq here.1).0 in
    let rest =
      step_counters-IsStepped step f' ps w d.1
        (λ q e. ground (arith, d.0, kept, h q, e, after q, ==_iff p q)) in
    record {
      valid = rest.valid;
      same_m = rest.same_m ∙ kept.0;
      same_k = rest.same_k ∙ kept.1;
      same_bits = rest.same_bits ∙ kept.2;
      same_max = rest.same_max ∙ kept.3;
      same_count = rest.same_count ∙ kept.4;
      counters = λ q hq. ground (arith, d.0, kept, after q hq, rest.counters q, ==_iff p q);
    }
