-- ===== src/Rotation/Loop.antt =====
-- The background goroutine of rotation.go among the calls of other goroutines. The mutex of the
-- rotating filter is held for the whole of a rotation, a snapshot, a restore or a stop, but `Add` and
-- `Test` do not take it: they take only that of the partitioned filter, which the others hold for one
-- of its methods at a time. So an `Add` may run between any two such methods. A call that changes
-- nothing, such as `History` or a second `Stop`, is no step, nor is a direct call on what `Filter`
-- returns.
pub mod Later
pub mod Jobs
pub mod Alone
pub mod Runs
use bloom_filter_jyy_0098_go.Base.{
  ℕ, suc, ◌+◌, ◌-◌, ◌%◌, ◌<◌, ◌≡◌, Bool, true, false, Option, some, none, List, [], ◌∷◌, ◌++◌, All,
  IsByte, length, set, ok, err, panic, ltb, leb, ◌==◌, if◌then◌else◌,
}
use bloom_filter_jyy_0098_go.Float.{Floats}
use bloom_filter_jyy_0098_go.Filter.{new_from_parts}
use bloom_filter_jyy_0098_go.Partition
use bloom_filter_jyy_0098_go.Partition.{test_all, reset_partition, partition}
use bloom_filter_jyy_0098_go.Rotation.{
  RotatingFilter, RotationEvent, Strategy, round_robin, saturation, saturation_or_zero, stop,
}

module _ (fl : Floats) where
  open fl use {F}

  -- `none` is a panic on a nil sub-filter.
  unfoldable pub add : RotatingFilter fl → List ℕ → Option (RotatingFilter fl)
  add rf item = elim (Partition.add rf.pf item) [
    | some pf ↦ some (record rf { pf = pf })
    | none ↦ none
  ]

  unfoldable pub test : RotatingFilter fl → List ℕ → Option Bool
  test rf item = test_all rf.pf item

  -- What the goroutine that holds the mutex does next: `rotateOnce` from its start, the loop of
  -- `mostSaturated` at index i, the `ResetPartition` at the end of `rotateOnce`, and the loops of
  -- `Snapshot` and `Restore` at index i, the latter with what is left of the snapshot.
  pub data Job : Type 0 where
    rotating : Job
    scanning : ℕ → F → ℕ → Job
    resetting : ℕ → Job
    snapping : ℕ → Job
    restoring : ℕ → List (List ℕ) → Job

  -- The event is recorded, and the partition is reset next.
  unfoldable pub logged : ℕ → ℕ → F → RotatingFilter fl → Option (RotatingFilter fl × Option Job)
  logged now idx sat rf =
      let event : RotationEvent fl = record {
        timestamp = now;
        partition = idx;
        strategy = rf.strategy;
        before = sat;
      } in
      some (record rf { history = rf.history ++ event ∷ [] }, some (resetting idx))

  -- The switch of `rotateOnce`; the error of `Saturation` is dropped.
  unfoldable pub choose : Strategy → ℕ → RotatingFilter fl → Option (RotatingFilter fl × Option Job)
  unfolding logged
  choose saturation now rf = some (rf, some (scanning 0 (fl.decimal 0 0) 0))
  choose round_robin now rf = elim (saturation_or_zero fl rf.pf rf.current) [
    | ok sat ↦ logged now rf.current sat (record rf { current = (rf.current + 1) % rf.pf.count })
    | err e ↦ none
    | panic ↦ none
  ]

  unfoldable pub scan : ℕ → ℕ → F → ℕ → RotatingFilter fl → Option (RotatingFilter fl × Option Job)
  unfolding logged
  scan now i max_sat max_idx rf =
      if ltb i rf.pf.count
      then elim (saturation_or_zero fl rf.pf i) [
        | ok s ↦ some (
          rf,
          some (
              scanning (i + 1) (if fl.lt max_sat s then s else max_sat)
                (if fl.lt max_sat s then i else max_idx)),
        )
        | err e ↦ none
        | panic ↦ none
      ]
      else if fl.lt max_sat rf.limit
      then some (rf, none)
      else logged now max_idx max_sat rf

  -- `_ = rf.pf.ResetPartition(idx)`
  unfoldable pub reset_at : ℕ → RotatingFilter fl → Option (RotatingFilter fl × Option Job)
  reset_at idx rf = elim (reset_partition rf.pf idx) [
    | ok pf ↦ some (record rf { pf = pf }, none)
    | err e ↦ some (rf, none)
    | panic ↦ none
  ]

  -- One round of the loop of `Snapshot`, where `Bits` of a nil sub-filter panics. What is copied is
  -- left out.
  unfoldable pub snap_at : ℕ → RotatingFilter fl → Option (RotatingFilter fl × Option Job)
  snap_at i rf =
      if ltb i rf.pf.count
      then elim (partition rf.pf i) [
        | ok (some p) ↦ some (rf, some (snapping (i + 1)))
        | ok none ↦ none
        | err e ↦ none
        | panic ↦ none
      ]
      else some (rf, none)

  -- One round of the loop of `Restore`, which returns at the first error.
  unfoldable pub restore_at :
      ℕ → List (List ℕ) → RotatingFilter fl → Option (RotatingFilter fl × Option Job)
  restore_at i [] rf = some (rf, none)
  restore_at i (bits ∷ left) rf = elim (new_from_parts rf.pf.m rf.pf.k bits) [
    | ok bf ↦
        if leb (length rf.pf.partitions) i
        then none
        else some (
          record rf { pf = record (rf.pf) { partitions = set rf.pf.partitions i (some bf) } },
          some (restoring (i + 1) left),
        )
    | err e ↦ some (rf, none)
    | panic ↦ none
  ]

  -- What the goroutine that holds the mutex does up to its next call on the partitioned filter, that
  -- call included; no job is left when it unlocks, and `none` is a panic.
  unfoldable pub advance : ℕ → Job → RotatingFilter fl → Option (RotatingFilter fl × Option Job)
  unfolding choose scan reset_at snap_at restore_at
  advance now rotating rf = if rf.pf.count == 0 then some (rf, none) else choose rf.strategy now rf
  advance now (scanning i max_sat max_idx) rf = scan now i max_sat max_idx rf
  advance now (resetting idx) rf = reset_at idx rf
  advance now (snapping i) rf = snap_at i rf
  advance now (restoring i left) rf = restore_at i left rf

  -- The filter, how often its channel `stop` was closed, the goroutines of `Start` that have not made
  -- their ticker yet, those that wait in the `select`, those that took a tick and wait for the mutex,
  -- what the holder of the mutex does, if it is held, and whether one of them holds it, and whether
  -- some goroutine panicked.
  pub record System : Type 0 where
    pub rf : RotatingFilter fl
    pub closes : ℕ
    pub starting : ℕ
    pub waiting : ℕ
    pub ticked : ℕ
    pub job : Option Job
    pub by_loop : Bool
    pub crashed : Bool

  -- `interval` is 0 where `cfg.Interval` is not positive: `time.NewTicker` panics on it.
  pub data Step (interval : ℕ) (s : System) : System → Type 0 where
    start_called : Step interval s (record s { starting = suc s.starting })
    ticker_made :
        0 < s.starting
        → 0 < interval
        → Step interval s (record s { starting = s.starting - 1; waiting = suc s.waiting })
    ticker_refused :
        0 < s.starting
        → interval ≡ 0
        → Step interval s (record s { starting = s.starting - 1; crashed = true })
    -- The two cases of the `select`; either may be taken where both are ready.
    tick_taken :
        0 < s.waiting
        → Step interval s (record s { waiting = s.waiting - 1; ticked = suc s.ticked })
    loop_returned :
        0 < s.waiting → 0 < s.closes → Step interval s (record s { waiting = s.waiting - 1 })
    -- The mutex is taken, by the loop after a tick or by a caller.
    tick_locked :
        0 < s.ticked
        → s.job ≡ none
        → Step interval s (record s { ticked = s.ticked - 1; job = some rotating; by_loop = true })
    rotate_called : s.job ≡ none → Step interval s (record s { job = some rotating })
    snapshot_called : s.job ≡ none → Step interval s (record s { job = some (snapping 0) })
    restore_called :
        (snap : List (List ℕ))
        → s.job ≡ none
        → All (All IsByte) snap
        → length snap ≡ s.rf.pf.count
        → Step interval s (record s { job = some (restoring 0 snap) })
    -- Its holder goes on, or ends and unlocks it.
    advanced :
        (now : ℕ) {j next : Job} {rf' : RotatingFilter fl}
        → s.job ≡ some j
        → advance now j s.rf ≡ some (rf', some next)
        → Step interval s (record s { rf = rf'; job = some next })
    unlocked :
        (now : ℕ) {j : Job} {rf' : RotatingFilter fl}
        → s.job ≡ some j
        → advance now j s.rf ≡ some (rf', none)
        → Step interval s (record s {
          rf = rf';
          job = none;
          waiting = if s.by_loop then suc s.waiting else s.waiting;
          by_loop = false;
        })
    job_panicked :
        (now : ℕ) {j : Job}
        → s.job ≡ some j
        → advance now j s.rf ≡ none
        → Step interval s (record s { crashed = true })
    -- A second `close` of the channel would panic.
    stop_called :
        {rf' : RotatingFilter fl}
        → s.job ≡ none
        → stop fl s.rf ≡ ok rf'
        → Step interval s (record s { rf = rf'; closes = suc s.closes })
    -- Whoever holds the mutex.
    add_called :
        (item : List ℕ) {rf' : RotatingFilter fl}
        → add s.rf item ≡ some rf'
        → Step interval s (record s { rf = rf' })
    add_panicked :
        (item : List ℕ) → add s.rf item ≡ none → Step interval s (record s { crashed = true })
    test_panicked :
        (item : List ℕ) → test s.rf item ≡ none → Step interval s (record s { crashed = true })

  pub data Reach (interval : ℕ) (s : System) : System → Type 0 where
    here : Reach interval s s
    later : {t u : System} → Reach interval s t → Step interval t u → Reach interval s u
