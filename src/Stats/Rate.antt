-- ===== src/Stats/Rate.antt =====
-- internal/stats/rate.go: events counted in the buckets of a sliding window. A time is a number of
-- nanoseconds since the Unix epoch, not before it, and the current time is an argument; a duration
-- that `NewRateTracker` refuses is 0. Counts are ints of 64 bits. `Truncate` of package time is a
-- parameter.
pub mod Valid
pub mod Window
use bloom_filter_jyy_0098_go.Base.{
  ℕ, ◌+◌, ◌-◌, ◌*◌, ◌/◌, ◌%◌, List, [], ◌∷◌, length, get_or, set, replicate, map, u64, min, ltb,
  leb, ◌==◌, ◌||◌, if◌then◌else◌, Bool,
}
use bloom_filter_jyy_0098_go.Float.{Floats}

pub record Bucket : Type 0 where
  pub start : ℕ
  pub count : ℕ

pub record RateTracker : Type 0 where
  pub buckets : List Bucket
  pub bucket_size : ℕ
  pub window : ℕ
  pub num_buckets : ℕ

abbrev pub second : ℕ
second = 1000000000

unfoldable pub window_or_default : ℕ → ℕ
window_or_default window = if window == 0 then 60 * second else window

unfoldable pub size_or_default : ℕ → ℕ → ℕ
size_or_default window bucket_size =
    if (bucket_size == 0) || ltb window bucket_size then second else bucket_size

unfoldable pub bucket_number : ℕ → ℕ → ℕ
bucket_number window bucket_size = let n = window / bucket_size in if ltb n 1 then 1 else n

unfoldable pub new_tracker : ℕ → ℕ → ℕ → RateTracker
unfolding window_or_default size_or_default bucket_number
new_tracker now window bucket_size =
    let w = window_or_default window in
    let size = size_or_default w bucket_size in
    let n = bucket_number w size in
    record {
      buckets = replicate n (record { start = now; count = 0 });
      bucket_size = size;
      window = w;
      num_buckets = n;
    }

-- The remainder is never negative for a time that is not.
unfoldable pub bucket_index : RateTracker → ℕ → ℕ
bucket_index rt t = t / rt.bucket_size % rt.num_buckets

abbrev pub no_bucket : Bucket
no_bucket = record { start = 0; count = 0 }

-- What `Record` does to its bucket; `start` is the time truncated to the size of a bucket.
unfoldable pub bump : ℕ → ℕ → ℕ → ℕ → Bucket → Bucket
bump now start size n b =
    if leb (b.start + size) now
    then record { start = start; count = n }
    else record b { count = u64 (b.count + n) }

-- `&rt.buckets[idx]` would panic out of range.
unfoldable pub record_events : (ℕ → ℕ → ℕ) → ℕ → ℕ → RateTracker → RateTracker
unfolding bucket_index bump
record_events truncate now n rt =
    let idx = bucket_index rt now in
    let b = get_or rt.buckets idx no_bucket in
    record rt {
      buckets = set rt.buckets idx (bump now (truncate now rt.bucket_size) rt.bucket_size n b);
    }

-- `start.After(cutoff) || start.Equal(cutoff)` for the cutoff `now.Add(-window)`
abbrev pub in_window : ℕ → ℕ → Bucket → Bool
in_window now window b = leb now (b.start + window)

-- The loop of `Total`.
total_loop : ℕ → ℕ → List Bucket → ℕ → ℕ
total_loop now window [] total = total
total_loop now window (b ∷ bs) total =
    total_loop now window bs (if in_window now window b then u64 (total + b.count) else total)

unfoldable pub total : ℕ → RateTracker → ℕ
unfolding total_loop
total now rt = total_loop now rt.window rt.buckets 0

-- The loop of `Rate`: the time that the buckets in the window have been active. A bucket that
-- starts after `now` would count as negative.
active_loop : ℕ → RateTracker → List Bucket → ℕ → ℕ
active_loop now rt [] active = active
active_loop now rt (b ∷ bs) active =
    active_loop now rt bs
      (if in_window now rt.window b then active + min (now - b.start) rt.bucket_size else active)

unfoldable pub active_duration : ℕ → RateTracker → ℕ
unfolding active_loop
active_duration now rt = active_loop now rt rt.buckets 0

unfoldable pub reset : ℕ → RateTracker → RateTracker
reset now rt = record rt { buckets = map (λ b. record { start = now; count = 0 }) rt.buckets }

-- `seconds` is `Duration.Seconds`.
unfoldable pub rate : (fl : Floats) → (ℕ → fl.F) → ℕ → RateTracker → fl.F
unfolding active_duration total
rate fl seconds now rt =
    let active = active_duration now rt in
    if active == 0 then fl.decimal 0 0 else fl.div (fl.of_int (total now rt)) (seconds active)

pub record WindowSummary (fl : Floats) : Type 0 where
  pub window : ℕ
  pub bucket_size : ℕ
  pub num_buckets : ℕ
  pub active_total : ℕ
  pub rate_per_sec : fl.F

-- The total and the rate are taken at times of their own.
unfoldable pub summary : (fl : Floats) → (ℕ → fl.F) → ℕ → ℕ → RateTracker → WindowSummary fl
unfolding rate total
summary fl seconds now later rt = record {
  window = rt.window;
  bucket_size = rt.bucket_size;
  num_buckets = rt.num_buckets;
  active_total = total now rt;
  rate_per_sec = rate fl seconds later rt;
}
