-- ===== src/Stats/Tests.antt =====
-- The theorems on statistics at concrete collectors and trackers.
use bloom_filter_jyy_0098_go.Base.{
  ℕ, ◌+◌, ◌-◌, ◌/◌, ◌%◌, ◌≡◌, ◌++◌, refl, List, [], ◌∷◌, length, max, leb, if◌then◌else◌, u64,
  arith, true, false, inl, replicate,
}
use bloom_filter_jyy_0098_go.Float.Sample.{thousandths}
use bloom_filter_jyy_0098_go.Stats.{Collector, Snapshot, no_metrics, take_snapshot}
use bloom_filter_jyy_0098_go.Stats.History.{IsBounded, take_snapshot-IsBounded}
use bloom_filter_jyy_0098_go.Stats.Steps.{
  Running, Steps, done, more, test_step, outcome_step, reset_step, clear_step, reset_ended, load,
  clear, number_of, calls_of, adds_counter, tests_counter, hits_counter, misses_counter,
  removes_counter, overflows_counter, underflows_counter,
}
use bloom_filter_jyy_0098_go.Stats.Steps.Counts.{load-number_of}
use bloom_filter_jyy_0098_go.Stats.Rate.{
  RateTracker, new_tracker, bucket_index, record_events, total,
}
use bloom_filter_jyy_0098_go.Stats.Rate.Valid.{IsTracker}
use bloom_filter_jyy_0098_go.Stats.Rate.Window.{IsTruncate, total-record_events}

abbrev earlier : Snapshot thousandths
earlier = record { timestamp = 10; metrics = no_metrics; saturation = 125; elapsed = 3 }

abbrev full : Collector thousandths
full = record { metrics = no_metrics; history = earlier ∷ earlier ∷ []; max_hist = 2; created = 7 }

full-IsBounded : IsBounded thousandths full
full-IsBounded = record { some_room = omega arith; bounded = omega arith }

take_snapshot-IsBounded_example :
    IsBounded thousandths (take_snapshot thousandths 20 250 full).0
    × ((gone : List (Snapshot thousandths)) × (kept : List (Snapshot thousandths)) × (full.history
          ≡ gone ++ kept)
        × ((take_snapshot thousandths 20 250 full).0.history
            ≡ kept ++ (take_snapshot thousandths 20 250 full).1 ∷ [])
        × (length gone ≡ (if leb 2 (length full.history) then max 1 (2 / 10) else 0)))
take_snapshot-IsBounded_example = take_snapshot-IsBounded thousandths 20 250 full full-IsBounded

abbrev quiet : Running
quiet = record { metrics = no_metrics; pending = []; resetting = [] }

abbrev two_tests : Running
two_tests = record quiet { metrics = record no_metrics { tests = 2; hits = 1; misses = 1 } }

-- The second test ends before the first.
interleaved : Steps quiet two_tests
interleaved = more (test_step true) (
    more (test_step false)
      (more (outcome_step [] (true ∷ []) false refl) (more (outcome_step [] [] true refl) done)))

load-number_of_example :
    load misses_counter two_tests.metrics
    ≡ u64 (load misses_counter quiet.metrics + number_of misses_counter (calls_of interleaved))
unfolding interleaved load
load-number_of_example =
    load-number_of misses_counter interleaved (tt, (tt, (tt, (tt, tt)))) refl refl (omega arith)

-- A `Reset` that runs while a test is in progress leaves one hit and no test.
abbrev hit_left : Running
hit_left = record quiet { metrics = record no_metrics { hits = 1 } }

reset_races : Steps quiet hit_left
unfolding clear
reset_races = more (test_step true) (
    more reset_step (
      more (clear_step [] [] adds_counter _ refl) (
        more (clear_step [] [] tests_counter _ refl) (
          more (clear_step [] [] hits_counter _ refl) (
            more (outcome_step [] [] true refl) (
              more (clear_step [] [] misses_counter _ refl) (
                more (clear_step [] [] removes_counter _ refl) (
                  more (clear_step [] [] overflows_counter _ refl) (
                    more (clear_step [] [] underflows_counter _ refl)
                      (more (reset_ended [] [] refl) done))))))))))

abbrev truncated : ℕ → ℕ → ℕ
truncated t d = t - t % d

truncated-IsTruncate : IsTruncate truncated
truncated-IsTruncate = record { before = λ t d h. omega arith; near = λ t d h. grind arith }

-- Three buckets of 10.
abbrev tracker : RateTracker
tracker = record {
  buckets = replicate 3 (record { start = 9; count = 0 });
  bucket_size = 10;
  window = 30;
  num_buckets = 3;
}

new_tracker_runs : new_tracker 9 30 10 ≡ tracker
unfolding new_tracker
new_tracker_runs = refl

tracker-IsTracker : IsTracker tracker
tracker-IsTracker = record { some_buckets = omega arith; sized = refl; some_time = omega arith }

total-record_events_example :
    total 15 (record_events truncated 15 4 tracker) ≡ u64 (total 15 tracker + 4)
unfolding bucket_index
total-record_events_example =
    total-record_events truncated 15 4 tracker truncated-IsTruncate tracker-IsTracker (omega arith)
      (inl (omega arith))

-- A bucket that still has the creation time as its start is reset within its first period: 6 events
-- at most 5 old in a window of 30, and the total is 1.
total_lost : total 19 (record_events truncated 19 1 (record_events truncated 15 5 tracker)) ≡ 1
unfolding total record_events bucket_index
total_lost = refl
