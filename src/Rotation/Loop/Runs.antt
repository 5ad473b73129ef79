-- ===== src/Rotation/Loop/Runs.antt =====
-- What holds of a rotating filter in every run of its goroutines and its callers.
use bloom_filter_jyy_0098_go.Base.{
  ℕ, suc, ◌<◌, ◌≡◌, refl, ap, sym, ◌∙◌, subst, Bool, true, false, Option, some, none, List, [], ◌∷◌,
  append-nil, All, ok, inl, inr, if◌then◌else◌, arith, Bool-cases,
}
use bloom_filter_jyy_0098_go.Float.{Floats}
use bloom_filter_jyy_0098_go.Filter
use bloom_filter_jyy_0098_go.Filter.{BloomFilter}
use bloom_filter_jyy_0098_go.Partition.{test_any}
use bloom_filter_jyy_0098_go.Partition.Valid.{IsPart}
use bloom_filter_jyy_0098_go.Partition.Membership.{
  part_of, added, add-eq-added, added-IsPartitioned,
}
use bloom_filter_jyy_0098_go.Rotation.{RotatingFilter, stop}
use bloom_filter_jyy_0098_go.Rotation.Cycle.{IsRotating}
use bloom_filter_jyy_0098_go.Rotation.Loop.{
  System, Step, Reach, Job, add, test, advance, start_called, ticker_made, ticker_refused,
  tick_taken, loop_returned, tick_locked, rotate_called, snapshot_called, restore_called, advanced,
  unlocked, job_panicked, stop_called, add_called, add_panicked, test_panicked, here, later,
}
use bloom_filter_jyy_0098_go.Rotation.Loop.Later.{
  IsLater, IsLater-same, IsLater-trans, IsJob, IsAdvanced,
}
use bloom_filter_jyy_0098_go.Rotation.Loop.Jobs.{advance-ok}

-- `TestAll` of well-formed sub-filters answers.
test_any-ok :
    (item : List ℕ) (m k : ℕ) (ps : List (Option BloomFilter))
    → All (IsPart m k) ps
    → (b : Bool) × (test_any item ps ≡ some b)
unfolding test_any
test_any-ok item m k [] h = (false, refl)
test_any-ok item m k (none ∷ ps) h = absurd (ground (arith, h.0.is))
test_any-ok item m k (some p ∷ ps) h = elim (Bool-cases (Filter.test p item)) [
  | inl e ↦ (true, rw e refl)
  | inr e ↦ let rest = test_any-ok item m k ps h.1 in (rest.0, rw e rest.1)
]

module _ (fl : Floats) where
  -- No panic so far, the filter is well-formed, the channel is closed, once, after `Stop`, and what
  -- the holder of the mutex does is in range.
  pub record IsRunning (s : System fl) : Type 0 where
    pub rotating : IsRotating fl s.rf
    pub alive : s.crashed ≡ false
    pub closed_once : s.closes ≡ (if s.rf.stopped then 1 else 0)
    pub job : IsJob fl s.rf.pf.count s.job

  advance-IsRunning :
      (now : ℕ) (s : System fl) (j : Job fl)
      → IsRunning s
      → s.job ≡ some j
      → (rf' : RotatingFilter fl) × (next : Option (Job fl)) × (advance fl now j s.rf
          ≡ some (rf', next))
        × IsAdvanced fl s.rf rf' next
  advance-IsRunning now s j r e =
      advance-ok fl now j s.rf r.rotating (subst (IsJob fl s.rf.pf.count) e r.job)

  -- Whatever the holder leaves is what the lemma says.
  moved :
      (now : ℕ) (s : System fl) (j : Job fl) (rf' : RotatingFilter fl) (next : Option (Job fl))
      → IsRunning s
      → s.job ≡ some j
      → advance fl now j s.rf ≡ some (rf', next)
      → IsAdvanced fl s.rf rf' next
  moved now s j rf' next r at e =
      let t = advance-IsRunning now s j r at in
      let same : ◌≡◌ {A = Option (RotatingFilter fl × Option (Job fl))} (some (t.0, t.1))
          (some (rf', next)) =
        sym t.2 ∙ e in
      let first : t.0 ≡ rf' = cc in
      let second : t.1 ≡ next = cc in
      subst (λ (g : RotatingFilter fl). IsAdvanced fl s.rf g next) first
        (subst (IsAdvanced fl s.rf t.0) second t.3)

  closed_still :
      (s : System fl) (rf' : RotatingFilter fl)
      → IsRunning s
      → rf'.stopped ≡ s.rf.stopped
      → s.closes ≡ (if rf'.stopped then 1 else 0)
  closed_still s rf' r e = r.closed_once ∙ ap (λ b. if b then 1 else 0) (sym e)

  stop-IsRunning :
      (s : System fl) (rf' : RotatingFilter fl)
      → IsRunning s
      → stop fl s.rf ≡ ok rf'
      → IsRunning (record s { rf = rf'; closes = suc s.closes }) × IsLater fl s.rf rf'
  unfolding stop
  stop-IsRunning s rf' r e = elim (Bool-cases s.rf.stopped) [
    | inl t ↦ absurd (ground (arith, t, e))
    | inr f ↦
        let same : record (s.rf) { stopped = true } ≡ rf' = ground (arith, f, e) in
        subst
          (λ (g : RotatingFilter fl).
            IsRunning (record s { rf = g; closes = suc s.closes }) × IsLater fl s.rf g)
          same
          (
            record {
              rotating = record { valid = (r.rotating).valid; in_range = (r.rotating).in_range };
              alive = r.alive;
              closed_once = ground (arith, r.closed_once, f);
              job = r.job;
            },
            record {
              events = [];
              history = sym (append-nil s.rf.history);
              stopped = ground (arith, f);
            },
          )
  ]

  add-IsRunning :
      (item : List ℕ) (s : System fl)
      → IsRunning s
      → (rf' : RotatingFilter fl) × (add fl s.rf item ≡ some rf')
        × IsRunning (record s { rf = rf' })
        × IsLater fl s.rf rf'
  unfolding add
  add-IsRunning item s r =
      let v = (r.rotating).valid in
      let pf = added s.rf.pf item (part_of s.rf.pf item v).part in
      (
        record (s.rf) { pf = pf },
        ground (arith, add-eq-added s.rf.pf item v),
        record {
          rotating = record {
            valid = added-IsPartitioned s.rf.pf item v;
            in_range = (r.rotating).in_range;
          };
          alive = r.alive;
          closed_once = r.closed_once;
          job = r.job;
        },
        IsLater-same fl s.rf (record (s.rf) { pf = pf }) refl refl,
      )

  Step-IsRunning :
      {interval : ℕ} {s t : System fl}
      → 0 < interval
      → Step fl interval s t
      → IsRunning s
      → IsRunning t × IsLater fl s.rf t.rf
  unfolding test bloom_filter_jyy_0098_go.Partition.test_all
  Step-IsRunning {s = s} pos start_called r = (
    record { rotating = r.rotating; alive = r.alive; closed_once = r.closed_once; job = r.job },
    IsLater-same fl s.rf s.rf refl refl,
  )
  Step-IsRunning {s = s} pos (ticker_made h i) r = (
    record { rotating = r.rotating; alive = r.alive; closed_once = r.closed_once; job = r.job },
    IsLater-same fl s.rf s.rf refl refl,
  )
  Step-IsRunning {s = s} pos (ticker_refused h i) r = absurd (omega arith)
  Step-IsRunning {s = s} pos (tick_taken h) r = (
    record { rotating = r.rotating; alive = r.alive; closed_once = r.closed_once; job = r.job },
    IsLater-same fl s.rf s.rf refl refl,
  )
  Step-IsRunning {s = s} pos (loop_returned h i) r = (
    record { rotating = r.rotating; alive = r.alive; closed_once = r.closed_once; job = r.job },
    IsLater-same fl s.rf s.rf refl refl,
  )
  Step-IsRunning {s = s} pos (tick_locked h free) r = (
    record { rotating = r.rotating; alive = r.alive; closed_once = r.closed_once; job = tt },
    IsLater-same fl s.rf s.rf refl refl,
  )
  Step-IsRunning {s = s} pos (rotate_called free) r = (
    record { rotating = r.rotating; alive = r.alive; closed_once = r.closed_once; job = tt },
    IsLater-same fl s.rf s.rf refl refl,
  )
  Step-IsRunning {s = s} pos (snapshot_called free) r = (
    record { rotating = r.rotating; alive = r.alive; closed_once = r.closed_once; job = tt },
    IsLater-same fl s.rf s.rf refl refl,
  )
  Step-IsRunning {s = s} pos (restore_called snap free bytes sized) r = (
    record {
      rotating = r.rotating;
      alive = r.alive;
      closed_once = r.closed_once;
      job = (bytes, omega (arith, sized));
    },
    IsLater-same fl s.rf s.rf refl refl,
  )
  Step-IsRunning {s = s} pos (advanced now {j} {next} {rf'} at e) r =
      let a = moved now s j rf' (some next) r at e in
      (
        record {
          rotating = a.rotating;
          alive = r.alive;
          closed_once = closed_still s rf' r a.stopped;
          job = a.job;
        },
        a.later,
      )
  Step-IsRunning {s = s} pos (unlocked now {j} {rf'} at e) r =
      let a = moved now s j rf' none r at e in
      (
        record {
          rotating = a.rotating;
          alive = r.alive;
          closed_once = closed_still s rf' r a.stopped;
          job = tt;
        },
        a.later,
      )
  Step-IsRunning {s = s} pos (job_panicked now {j} at e) r =
      absurd (ground (arith, (advance-IsRunning now s j r at).2, e))
  Step-IsRunning {s = s} pos (stop_called {rf'} free e) r = stop-IsRunning s rf' r e
  Step-IsRunning {s = s} pos (add_called item {rf'} e) r =
      let a = add-IsRunning item s r in
      let same : a.0 ≡ rf' = ground (arith, a.1, e) in
      subst (λ (g : RotatingFilter fl). IsRunning (record s { rf = g }) × IsLater fl s.rf g) same
        (a.2, a.3)
  Step-IsRunning {s = s} pos (add_panicked item e) r =
      absurd (ground (arith, (add-IsRunning item s r).1, e))
  Step-IsRunning {s = s} pos (test_panicked item e) r =
      let pf = s.rf.pf in
      absurd
        (ground (arith, (test_any-ok item pf.m pf.k pf.partitions (r.rotating).valid.parts).1, e))

  -- From a running state with a positive interval, whatever the goroutines of `Start` and the callers
  -- of the methods do in whatever order, an `Add` or a `Test` in the middle of a rotation, a snapshot
  -- or a restore included: nothing panics, the filter stays well-formed, the channel is closed at
  -- most once, the events so far are only added to, and a stopped filter stays stopped.
  pub Reach-IsRunning :
      {interval : ℕ} {s t : System fl}
      → 0 < interval
      → IsRunning s
      → Reach fl interval s t
      → IsRunning t × IsLater fl s.rf t.rf
  Reach-IsRunning {s = s} pos r here = (r, IsLater-same fl s.rf s.rf refl refl)
  Reach-IsRunning {s = s} {t = u} pos r (later {t} run step) =
      let before = Reach-IsRunning pos r run in
      let after = Step-IsRunning pos step before.0 in
      (after.0, IsLater-trans fl s.rf t.rf u.rf before.1 after.1)
