-- ===== src/Stats/Rate/Valid.antt =====
-- Well-formed rate trackers: what `NewRateTracker` establishes and `Record` keeps.
use bloom_filter_jyy_0098_go.Base.{ℕ, ◌<◌, ◌≡◌, length, arith, length-set, length-replicate, ◌∙◌}
use bloom_filter_jyy_0098_go.Stats.Rate.{
  RateTracker, new_tracker, window_or_default, size_or_default, bucket_number, bucket_index,
  record_events,
}

pub record IsTracker (rt : RateTracker) : Type 0 where
  pub some_buckets : 0 < rt.num_buckets
  pub sized : length rt.buckets ≡ rt.num_buckets
  pub some_time : 0 < rt.bucket_size

size_or_default-pos : (window size : ℕ) → 0 < size_or_default window size
unfolding size_or_default
size_or_default-pos window size = ground arith

bucket_number-pos : (window size : ℕ) → 0 < bucket_number window size
unfolding bucket_number
bucket_number-pos window size = ground arith

-- A new tracker is well-formed for any arguments, the refused ones included.
pub new_tracker-IsTracker : (now window size : ℕ) → IsTracker (new_tracker now window size)
unfolding new_tracker
new_tracker-IsTracker now window size =
    let w = window_or_default window in
    let s = size_or_default w size in
    let n = bucket_number w s in
    record {
      some_buckets = bucket_number-pos w s;
      sized = length-replicate n _;
      some_time = size_or_default-pos w size;
    }

-- In a well-formed tracker the bucket of any time is in range, so that `Record` does not panic, and
-- `Record` leaves the tracker well-formed.
pub record_events-IsTracker :
    (truncate : ℕ → ℕ → ℕ) (now n : ℕ) (rt : RateTracker)
    → IsTracker rt
    → (bucket_index rt now < length rt.buckets) × IsTracker (record_events truncate now n rt)
unfolding bucket_index record_events
record_events-IsTracker truncate now n rt v = (
  omega (arith, v.sized, v.some_buckets),
  record {
    some_buckets = v.some_buckets;
    sized = length-set rt.buckets _ _ ∙ v.sized;
    some_time = v.some_time;
  },
)
