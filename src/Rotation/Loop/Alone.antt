-- ===== src/Rotation/Loop/Alone.antt =====
-- A rotation whose steps run with nothing in between.
use bloom_filter_jyy_0098_go.Base.{ℕ, ◌≡◌, some, none, [], ◌∷◌, ◌++◌, if◌then◌else◌}
use bloom_filter_jyy_0098_go.Float.{Floats}
use bloom_filter_jyy_0098_go.Rotation.{RotatingFilter}
use bloom_filter_jyy_0098_go.Rotation.Cycle.{turned}
use bloom_filter_jyy_0098_go.Rotation.Loop.{Job, advance}

module _ (fl : Floats) where
  open fl use {F}

  -- The holder of the mutex, at a job, goes on until it unlocks the mutex, and no other goroutine
  -- runs meanwhile.
  pub data Alone (now : ℕ) : Job fl → RotatingFilter fl → RotatingFilter fl → Type 0 where
    ends :
        {j : Job fl} {rf rf' : RotatingFilter fl}
        → advance fl now j rf ≡ some (rf', none)
        → Alone now j rf rf'
    goes_on :
        {j next : Job fl} {rf between rf' : RotatingFilter fl}
        → advance fl now j rf ≡ some (between, some next)
        → Alone now next between rf'
        → Alone now j rf rf'

  -- The filter once the event is logged.
  abbrev with_event : ℕ → RotatingFilter fl → ℕ → F → RotatingFilter fl
  with_event now rf idx sat = record rf {
    history =
        rf.history
        ++ (record { timestamp = now; partition = idx; strategy = rf.strategy; before = sat }) ∷ [];
  }

  -- The end of `rotateOnce` under the strategy of the most saturated partition.
  abbrev chosen : ℕ → RotatingFilter fl → ℕ × F → RotatingFilter fl
  chosen now rf found = if fl.lt found.1 rf.limit then rf else turned fl now rf found.0 found.1
