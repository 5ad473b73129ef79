-- ===== src/Stats.antt =====
-- internal/stats/stats.go: counters of a filter's operations and a bounded history of them. The
-- counters are 64 bits that wrap. Times and durations are numbers of nanoseconds, the current time
-- is an argument, and a clock never goes back.
pub mod Rate
pub mod History
pub mod Steps
mod Tests
use bloom_filter_jyy_0098_go.Base.{
  ℕ, ◌+◌, ◌-◌, ◌/◌, Bool, true, false, List, [], ◌∷◌, ◌++◌, length, drop, u64, ltb, leb, ◌==◌,
  if◌then◌else◌,
}
use bloom_filter_jyy_0098_go.Float.{Floats}

pub record Metrics : Type 0 where
  pub adds : ℕ
  pub tests : ℕ
  pub hits : ℕ
  pub misses : ℕ
  pub removes : ℕ
  pub overflows : ℕ
  pub underflows : ℕ

abbrev pub no_metrics : Metrics
no_metrics = record {
  adds = 0;
  tests = 0;
  hits = 0;
  misses = 0;
  removes = 0;
  overflows = 0;
  underflows = 0;
}

-- The atomic operations `c.adds.Add(1)`, `c.tests.Add(1)` and so on.
abbrev pub count_add : Metrics → Metrics
count_add m = record m { adds = u64 (m.adds + 1) }

abbrev pub count_test : Metrics → Metrics
count_test m = record m { tests = u64 (m.tests + 1) }

-- The second operation of `RecordTest`, after `count_test`.
abbrev pub count_outcome : Bool → Metrics → Metrics
count_outcome true m = record m { hits = u64 (m.hits + 1) }
count_outcome false m = record m { misses = u64 (m.misses + 1) }

abbrev pub count_remove : Metrics → Metrics
count_remove m = record m { removes = u64 (m.removes + 1) }

abbrev pub count_overflow : Metrics → Metrics
count_overflow m = record m { overflows = u64 (m.overflows + 1) }

abbrev pub count_underflow : Metrics → Metrics
count_underflow m = record m { underflows = u64 (m.underflows + 1) }

module _ (fl : Floats) where
  open fl use {F}

  unfoldable pub hit_rate : Metrics → F
  hit_rate m =
      if m.tests == 0 then fl.decimal 0 0 else fl.div (fl.of_int m.hits) (fl.of_int m.tests)

  unfoldable pub miss_rate : Metrics → F
  miss_rate m =
      if m.tests == 0 then fl.decimal 0 0 else fl.div (fl.of_int m.misses) (fl.of_int m.tests)

  pub record Snapshot : Type 0 where
    pub timestamp : ℕ
    pub metrics : Metrics
    pub saturation : F
    pub elapsed : ℕ

  pub record Collector : Type 0 where
    pub metrics : Metrics
    pub history : List Snapshot
    pub max_hist : ℕ
    pub created : ℕ

  -- A `maxHistory` of 0 stands for any that is not positive.
  unfoldable pub new_collector : ℕ → ℕ → Collector
  new_collector now max_history = record {
    metrics = no_metrics;
    history = [];
    max_hist = if max_history == 0 then 1000 else max_history;
    created = now;
  }

  -- How many snapshots are dropped from a full history.
  unfoldable pub evicted : ℕ → ℕ
  evicted max_hist = let tenth = max_hist / 10 in if ltb tenth 1 then 1 else tenth

  -- `c.history[evict:]` of a full history, which has at least that many snapshots.
  unfoldable pub make_room : ℕ → List Snapshot → List Snapshot
  unfolding evicted
  make_room max_hist history =
      if leb max_hist (length history) then drop (evicted max_hist) history else history

  abbrev pub snapshot_of : ℕ → F → Collector → Snapshot
  snapshot_of now saturation c = record {
    timestamp = now;
    metrics = c.metrics;
    saturation = saturation;
    elapsed = now - c.created;
  }

  unfoldable pub take_snapshot : ℕ → F → Collector → Collector × Snapshot
  unfolding make_room
  take_snapshot now saturation c =
      let snap = snapshot_of now saturation c in
      (record c { history = make_room c.max_hist c.history ++ snap ∷ [] }, snap)

  -- The loop of `HistorySince`.
  since_loop : ℕ → List Snapshot → List Snapshot
  since_loop t [] = []
  since_loop t (s ∷ history) =
      let rest = since_loop t history in if ltb t s.timestamp then s ∷ rest else rest

  unfoldable pub history_since : ℕ → Collector → List Snapshot
  unfolding since_loop
  history_since t c = since_loop t c.history

  unfoldable pub reset : ℕ → Collector → Collector
  reset now c = record c { metrics = no_metrics; history = []; created = now }

  unfoldable pub uptime : ℕ → Collector → ℕ
  uptime now c = now - c.created
