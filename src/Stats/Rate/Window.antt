-- ===== src/Stats/Rate/Window.antt =====
-- What `Record` of rate.go does to `Total`.
use bloom_filter_jyy_0098_go.Base.{
  ℕ, zero, suc, ◌+◌, ◌^◌, ◌<◌, ◌≤◌, ◌≡◌, List, [], ◌∷◌, length, arith, set, get_or, if◌then◌else◌,
  u64, ◌⊎◌, inl, inr, Bool-cases,
}
use bloom_filter_jyy_0098_go.Stats.Rate.{
  RateTracker, Bucket, bucket_index, record_events, bump, no_bucket, total, total_loop, in_window,
}
use bloom_filter_jyy_0098_go.Stats.Rate.Valid.{IsTracker, record_events-IsTracker}

-- What package time says of `Truncate` by a positive duration.
pub record IsTruncate (truncate : ℕ → ℕ → ℕ) : Type 0 where
  pub before : (t d : ℕ) → 0 < d → truncate t d ≤ t
  pub near : (t d : ℕ) → 0 < d → t < truncate t d + d

-- What a bucket adds to the total.
weight : ℕ → ℕ → Bucket → ℕ
weight now window b = if in_window now window b then b.count else 0

sum : ℕ → ℕ → List Bucket → ℕ
unfolding weight
sum now window [] = 0
sum now window (b ∷ bs) = weight now window b + sum now window bs

total_loop-sum :
    (now window : ℕ) (bs : List Bucket) (acc : ℕ)
    → acc < 2 ^ 64
    → total_loop now window bs acc ≡ u64 (acc + sum now window bs)
unfolding total_loop sum weight
total_loop-sum now window [] acc h = omega arith
total_loop-sum now window (b ∷ bs) acc h = elim (Bool-cases (in_window now window b)) [
  | inl e ↦ rw e (omega (arith, total_loop-sum now window bs (u64 (acc + b.count)) (omega arith)))
  | inr e ↦ rw e (omega (arith, total_loop-sum now window bs acc h))
]

sum-set :
    (now window : ℕ) (bs : List Bucket) (i : ℕ) (b d : Bucket)
    → i < length bs
    → sum now window (set bs i b) + weight now window (get_or bs i d)
      ≡ sum now window bs + weight now window b
unfolding sum
sum-set now window [] i b d h = absurd (omega arith)
sum-set now window (x ∷ bs) zero b d h = omega arith
sum-set now window (x ∷ bs) (suc i) b d h = omega (arith, sum-set now window bs i b d (omega arith))

-- The bucket of `Record` counts n more, if what it counted before is not in the window any more or
-- is of the present period.
weight-bump :
    (now start size window n : ℕ) (b : Bucket)
    → size ≤ window
    → now < start + size
    → (now < b.start + size) ⊎ (b.start + window < now)
    → u64 (weight now window (bump now start size n b)) ≡ u64 (weight now window b + n)
unfolding weight bump
weight-bump now start size window n b h near (inl fresh) = ground arith
weight-bump now start size window n b h near (inr past) = ground arith

-- Given what package time says of `Truncate`, `Record` of n events in a well-formed tracker, whose
-- window is no shorter than a bucket, raises the `Total` at that time by n, wrapping, if its bucket
-- is of the present period or is out of the window.
pub total-record_events :
    (truncate : ℕ → ℕ → ℕ) (now n : ℕ) (rt : RateTracker)
    → IsTruncate truncate
    → IsTracker rt
    → rt.bucket_size ≤ rt.window
    → (now < (get_or rt.buckets (bucket_index rt now) no_bucket).start + rt.bucket_size)
      ⊎ ((get_or rt.buckets (bucket_index rt now) no_bucket).start + rt.window < now)
    → total now (record_events truncate now n rt) ≡ u64 (total now rt + n)
unfolding total record_events
total-record_events truncate now n rt t v h c =
    let i = bucket_index rt now in
    let start = truncate now rt.bucket_size in
    let b = get_or rt.buckets i no_bucket in
    let b' = bump now start rt.bucket_size n b in
    let near = t.near now rt.bucket_size v.some_time in
    omega (
      arith,
      total_loop-sum now rt.window rt.buckets 0 (omega arith),
      total_loop-sum now rt.window (set rt.buckets i b') 0 (omega arith),
      sum-set now rt.window rt.buckets i b' no_bucket
          (record_events-IsTracker truncate now n rt v).0,
      weight-bump now start rt.bucket_size rt.window n b h near c,
    )
