-- ===== src/Stats/Steps/Counts.antt =====
-- What the counters of stats.go count, however the steps of concurrent calls interleave.
use bloom_filter_jyy_0098_go.Base.{
  ℕ, ◌+◌, ◌<◌, ◌^◌, ◌≡◌, refl, Bool, true, false, List, [], ◌∷◌, ◌++◌, ap, arith, u64,
}
use bloom_filter_jyy_0098_go.Stats.{
  Metrics, count_add, count_test, count_outcome, count_remove, count_overflow, count_underflow,
}
use bloom_filter_jyy_0098_go.Stats.Steps.{
  Counter, adds_counter, hits_counter, misses_counter, load, Running, Step, Steps, done, more,
  add_step, remove_step, overflow_step, underflow_step, test_step, outcome_step, reset_step,
  clear_step, reset_ended, IsRecord, AllRecord, Call, add_call, remove_call, overflow_call,
  underflow_call, test_call, stands_for, number_of, begun, calls_of,
}

-- What the pending tests have still to add to a counter.
outcome_of : Counter → Bool → ℕ
outcome_of hits_counter true = 1
outcome_of misses_counter false = 1
outcome_of c hit = 0

owed : Counter → List Bool → ℕ
owed c [] = 0
owed c (p ∷ ps) = outcome_of c p + owed c ps

owed-append :
    (c : Counter) (ps qs : List Bool) (p : Bool)
    → owed c (ps ++ p ∷ qs) ≡ outcome_of c p + owed c (ps ++ qs)
unfolding owed
owed-append c [] qs p = refl
owed-append c (q ∷ ps) qs p = omega (arith, owed-append c ps qs p)

number_of-append :
    (c : Counter) (xs ys : List Call) → number_of c (xs ++ ys) ≡ number_of c xs + number_of c ys
unfolding number_of
number_of-append c [] ys = omega arith
number_of-append c (x ∷ xs) ys = omega (arith, number_of-append c xs ys)

load-count_add :
    (c : Counter) (m : Metrics) (n : ℕ)
    → u64 (load c (count_add m) + n) ≡ u64 (load c m + n + stands_for c add_call)
unfolding load stands_for
load-count_add adds_counter m n = omega arith
load-count_add c m n = omega arith

load-count_remove :
    (c : Counter) (m : Metrics) (n : ℕ)
    → u64 (load c (count_remove m) + n) ≡ u64 (load c m + n + stands_for c remove_call)
unfolding load stands_for
load-count_remove adds_counter m n = omega arith
load-count_remove c m n = omega arith

load-count_overflow :
    (c : Counter) (m : Metrics) (n : ℕ)
    → u64 (load c (count_overflow m) + n) ≡ u64 (load c m + n + stands_for c overflow_call)
unfolding load stands_for
load-count_overflow adds_counter m n = omega arith
load-count_overflow c m n = omega arith

load-count_underflow :
    (c : Counter) (m : Metrics) (n : ℕ)
    → u64 (load c (count_underflow m) + n) ≡ u64 (load c m + n + stands_for c underflow_call)
unfolding load stands_for
load-count_underflow adds_counter m n = omega arith
load-count_underflow c m n = omega arith

load-count_test :
    (c : Counter) (hit : Bool) (m : Metrics) (n : ℕ)
    → u64 (load c (count_test m) + (outcome_of c hit + n))
      ≡ u64 (load c m + n + stands_for c (test_call hit))
unfolding load stands_for outcome_of
load-count_test adds_counter true m n = omega arith
load-count_test adds_counter false m n = omega arith
load-count_test c true m n = omega arith
load-count_test c false m n = omega arith

load-count_outcome :
    (c : Counter) (hit : Bool) (m : Metrics) (n : ℕ)
    → u64 (load c (count_outcome hit m) + n) ≡ u64 (load c m + (outcome_of c hit + n))
unfolding load outcome_of
load-count_outcome adds_counter true m n = omega arith
load-count_outcome adds_counter false m n = omega arith
load-count_outcome c true m n = omega arith
load-count_outcome c false m n = omega arith

-- A recording step raises each counter, with what is owed to it, by the call that it begins.
Step-owed :
    (c : Counter) {r s : Running} (one : Step r s)
    → IsRecord one
    → u64 (load c s.metrics + owed c s.pending)
      ≡ u64 (load c r.metrics + owed c r.pending + number_of c (begun one))
unfolding owed number_of begun
Step-owed c {r = r} add_step h = omega (arith, load-count_add c r.metrics (owed c r.pending))
Step-owed c {r = r} remove_step h = omega (arith, load-count_remove c r.metrics (owed c r.pending))
Step-owed c {r = r} overflow_step h =
    omega (arith, load-count_overflow c r.metrics (owed c r.pending))
Step-owed c {r = r} underflow_step h =
    omega (arith, load-count_underflow c r.metrics (owed c r.pending))
Step-owed c {r = r} (test_step hit) h =
    omega (arith, load-count_test c hit r.metrics (owed c r.pending))
Step-owed c {r = r} (outcome_step ps qs hit e) h = omega (
  arith,
  load-count_outcome c hit r.metrics (owed c (ps ++ qs)),
  ap (owed c) e,
  owed-append c ps qs hit,
)
Step-owed c reset_step h = absurd h
Step-owed c (clear_step cs ds d left e) h = absurd h
Step-owed c (reset_ended cs ds e) h = absurd h

load-count_outcome_lt :
    (c : Counter) (hit : Bool) (m : Metrics)
    → load c m < 2 ^ 64
    → load c (count_outcome hit m) < 2 ^ 64
unfolding load
load-count_outcome_lt adds_counter true m h = omega arith
load-count_outcome_lt adds_counter false m h = omega arith
load-count_outcome_lt c true m h = omega arith
load-count_outcome_lt c false m h = omega arith

load-count_add_lt : (c : Counter) (m : Metrics) → load c m < 2 ^ 64 → load c (count_add m) < 2 ^ 64
unfolding load
load-count_add_lt adds_counter m h = omega arith
load-count_add_lt c m h = omega arith

load-count_remove_lt :
    (c : Counter) (m : Metrics) → load c m < 2 ^ 64 → load c (count_remove m) < 2 ^ 64
unfolding load
load-count_remove_lt adds_counter m h = omega arith
load-count_remove_lt c m h = omega arith

load-count_overflow_lt :
    (c : Counter) (m : Metrics) → load c m < 2 ^ 64 → load c (count_overflow m) < 2 ^ 64
unfolding load
load-count_overflow_lt adds_counter m h = omega arith
load-count_overflow_lt c m h = omega arith

load-count_underflow_lt :
    (c : Counter) (m : Metrics) → load c m < 2 ^ 64 → load c (count_underflow m) < 2 ^ 64
unfolding load
load-count_underflow_lt adds_counter m h = omega arith
load-count_underflow_lt c m h = omega arith

load-count_test_lt :
    (c : Counter) (m : Metrics) → load c m < 2 ^ 64 → load c (count_test m) < 2 ^ 64
unfolding load
load-count_test_lt adds_counter m h = omega arith
load-count_test_lt c m h = omega arith

Step-lt :
    (c : Counter) {r s : Running} (one : Step r s)
    → IsRecord one
    → load c r.metrics < 2 ^ 64
    → load c s.metrics < 2 ^ 64
Step-lt c {r = r} add_step h b = load-count_add_lt c r.metrics b
Step-lt c {r = r} remove_step h b = load-count_remove_lt c r.metrics b
Step-lt c {r = r} overflow_step h b = load-count_overflow_lt c r.metrics b
Step-lt c {r = r} underflow_step h b = load-count_underflow_lt c r.metrics b
Step-lt c {r = r} (test_step hit) h b = load-count_test_lt c r.metrics b
Step-lt c {r = r} (outcome_step ps qs hit e) h b = load-count_outcome_lt c hit r.metrics b
Step-lt c reset_step h b = absurd h
Step-lt c (clear_step cs ds d left e) h b = absurd h
Step-lt c (reset_ended cs ds e) h b = absurd h

Steps-owed :
    (c : Counter) {r s : Running} (steps : Steps r s)
    → AllRecord steps
    → load c r.metrics < 2 ^ 64
    → (u64 (load c s.metrics + owed c s.pending)
        ≡ u64 (load c r.metrics + owed c r.pending + number_of c (calls_of steps)))
      × (load c s.metrics < 2 ^ 64)
unfolding number_of calls_of
Steps-owed c done h b = (omega arith, b)
Steps-owed c (more one rest) h b =
    let after = Steps-owed c rest h.1 (Step-lt c one h.0 b) in
    (
      omega (arith, after.0, Step-owed c one h.0, number_of-append c (begun one) (calls_of rest)),
      after.1,
    )

-- However the steps of concurrent calls of the recording methods interleave, with none of `Reset`
-- among them, from a state in which no `RecordTest` is in progress to another such state: each
-- counter, as a 64-bit number, has grown by the number of the calls that it stands for, the hits and
-- the misses by the tests with that outcome.
pub load-number_of :
    (c : Counter) {r s : Running} (steps : Steps r s)
    → AllRecord steps
    → r.pending ≡ []
    → s.pending ≡ []
    → load c r.metrics < 2 ^ 64
    → load c s.metrics ≡ u64 (load c r.metrics + number_of c (calls_of steps))
unfolding owed
load-number_of c steps h before after b =
    let grown = Steps-owed c steps h b in
    omega (arith, grown.0, grown.1, ap (owed c) before, ap (owed c) after)
