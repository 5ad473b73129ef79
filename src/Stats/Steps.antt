-- ===== src/Stats/Steps.antt =====
-- The counters of stats.go under concurrent calls: each atomic operation is a step. A `RecordTest` is
-- two of them and a `Reset` seven, between which the steps of other calls may run. What `Reset` does
-- to the history, under the lock, is in the parent.
pub mod Counts
use bloom_filter_jyy_0098_go.Base.{
  ℕ, ◌+◌, ◌<◌, ◌^◌, ◌≡◌, refl, Bool, true, false, List, [], ◌∷◌, ◌++◌, ap, sym, ◌∙◌, arith, u64,
}
use bloom_filter_jyy_0098_go.Stats.{
  Metrics, no_metrics, count_add, count_test, count_outcome, count_remove, count_overflow,
  count_underflow,
}

pub data Counter : Type 0 where
  adds_counter tests_counter hits_counter misses_counter : Counter
  removes_counter overflows_counter underflows_counter : Counter

-- `c.adds.Load()` and so on.
unfoldable pub load : Counter → Metrics → ℕ
load adds_counter m = m.adds
load tests_counter m = m.tests
load hits_counter m = m.hits
load misses_counter m = m.misses
load removes_counter m = m.removes
load overflows_counter m = m.overflows
load underflows_counter m = m.underflows

-- `c.adds.Store(0)` and so on.
unfoldable pub clear : Counter → Metrics → Metrics
clear adds_counter m = record m { adds = 0 }
clear tests_counter m = record m { tests = 0 }
clear hits_counter m = record m { hits = 0 }
clear misses_counter m = record m { misses = 0 }
clear removes_counter m = record m { removes = 0 }
clear overflows_counter m = record m { overflows = 0 }
clear underflows_counter m = record m { underflows = 0 }

-- The counters in the order in which `Reset` clears them.
abbrev pub reset_order : List Counter
reset_order =
    adds_counter ∷ tests_counter ∷ hits_counter ∷ misses_counter ∷ removes_counter
    ∷ overflows_counter ∷ underflows_counter ∷ []

-- The counters, the outcomes of the calls of `RecordTest` that are between their two steps, and what
-- the calls of `Reset` that have begun have still to clear.
pub record Running : Type 0 where
  pub metrics : Metrics
  pub pending : List Bool
  pub resetting : List (List Counter)

pub data Step : Running → Running → Type 0 where
  add_step : {r : Running} → Step r (record r { metrics = count_add r.metrics })
  remove_step : {r : Running} → Step r (record r { metrics = count_remove r.metrics })
  overflow_step : {r : Running} → Step r (record r { metrics = count_overflow r.metrics })
  underflow_step : {r : Running} → Step r (record r { metrics = count_underflow r.metrics })
  -- A call of `RecordTest` begins,
  test_step :
      {r : Running} (hit : Bool)
      → Step r (record r { metrics = count_test r.metrics; pending = hit ∷ r.pending })
  -- and one of those that have begun ends.
  outcome_step :
      {r : Running} (ps qs : List Bool) (hit : Bool)
      → r.pending ≡ ps ++ hit ∷ qs
      → Step r (record r { metrics = count_outcome hit r.metrics; pending = ps ++ qs })
  -- A call of `Reset` begins,
  reset_step : {r : Running} → Step r (record r { resetting = reset_order ∷ r.resetting })
  -- one of those that have begun clears its next counter,
  clear_step :
      {r : Running} (cs ds : List (List Counter)) (c : Counter) (left : List Counter)
      → r.resetting ≡ cs ++ (c ∷ left) ∷ ds
      → Step r (record r { metrics = clear c r.metrics; resetting = cs ++ left ∷ ds })
  -- and one that has cleared them all ends.
  reset_ended :
      {r : Running} (cs ds : List (List Counter))
      → r.resetting ≡ cs ++ [] ∷ ds
      → Step r (record r { resetting = cs ++ ds })

pub data Steps : Running → Running → Type 0 where
  done : {r : Running} → Steps r r
  more : {r s t : Running} → Step r s → Steps s t → Steps r t

-- The step is not one of `Reset`.
abbrev pub IsRecord : {r s : Running} → Step r s → Type 0
IsRecord reset_step = ⊥
IsRecord (clear_step cs ds c left e) = ⊥
IsRecord (reset_ended cs ds e) = ⊥
IsRecord one = Unit {0}

abbrev pub AllRecord : {r s : Running} → Steps r s → Type 0
AllRecord done = Unit {0}
AllRecord (more one rest) = IsRecord one × AllRecord rest

-- A call of one of the methods that record.
pub data Call : Type 0 where
  add_call remove_call overflow_call underflow_call : Call
  test_call : Bool → Call

-- How many of the calls a counter stands for: its own method's, and for the hits and the misses the
-- tests with that outcome.
unfoldable pub stands_for : Counter → Call → ℕ
stands_for adds_counter add_call = 1
stands_for tests_counter (test_call hit) = 1
stands_for hits_counter (test_call true) = 1
stands_for misses_counter (test_call false) = 1
stands_for removes_counter remove_call = 1
stands_for overflows_counter overflow_call = 1
stands_for underflows_counter underflow_call = 1
stands_for c call = 0

unfoldable pub number_of : Counter → List Call → ℕ
unfolding stands_for
number_of c [] = 0
number_of c (call ∷ calls) = stands_for c call + number_of c calls

-- The call that a step begins, if it begins one.
unfoldable pub begun : {r s : Running} → Step r s → List Call
begun add_step = add_call ∷ []
begun remove_step = remove_call ∷ []
begun overflow_step = overflow_call ∷ []
begun underflow_step = underflow_call ∷ []
begun (test_step hit) = test_call hit ∷ []
begun one = []

-- The recording calls in the order in which they begin.
unfoldable pub calls_of : {r s : Running} → Steps r s → List Call
unfolding begun
calls_of done = []
calls_of (more one rest) = begun one ++ calls_of rest
