-- ===== src/Rotation/Loop/Later.antt =====
-- What a step of the holder of the mutex of a rotating filter leaves.
use bloom_filter_jyy_0098_go.Base.{
  ℕ, ◌+◌, ◌<◌, ◌≡◌, refl, ap, sym, ◌∙◌, Bool, true, false, Option, some, none, List, [], ◌++◌, All,
  IsByte, length, ◌||◌, append_assoc, append-nil, arith,
}
use bloom_filter_jyy_0098_go.Float.{Floats}
use bloom_filter_jyy_0098_go.Rotation.{RotatingFilter, RotationEvent}
use bloom_filter_jyy_0098_go.Rotation.Cycle.{IsRotating}
use bloom_filter_jyy_0098_go.Rotation.Loop.{Job, rotating, scanning, resetting, snapping, restoring}

pub or_self : (a : Bool) → (a || a) ≡ a
or_self true = refl
or_self false = refl

or_trans : (a b c : Bool) → (a || b) ≡ b → (b || c) ≡ c → (a || c) ≡ c
or_trans a b c p q = ground arith

module _ (fl : Floats) where
  open fl use {F}

  -- What a run keeps of the filter: its events, and that it was stopped.
  pub record IsLater (a b : RotatingFilter fl) : Type 0 where
    pub events : List (RotationEvent fl)
    pub history : b.history ≡ a.history ++ events
    pub stopped : (a.stopped || b.stopped) ≡ b.stopped

  pub IsLater-same :
      (a b : RotatingFilter fl) → b.history ≡ a.history → b.stopped ≡ a.stopped → IsLater a b
  IsLater-same a b h s = record {
    events = [];
    history = h ∙ sym (append-nil a.history);
    stopped = ap (λ t. a.stopped || t) s ∙ or_self a.stopped ∙ sym s;
  }

  pub IsLater-trans : (a b c : RotatingFilter fl) → IsLater a b → IsLater b c → IsLater a c
  IsLater-trans a b c p q = record {
    events = p.events ++ q.events;
    history =
        q.history ∙ ap (λ t. t ++ q.events) p.history ∙ append_assoc a.history p.events q.events;
    stopped = or_trans a.stopped b.stopped c.stopped p.stopped q.stopped;
  }

  -- The indices of a job are in range of n partitions, and a snapshot is of bytes.
  abbrev pub InRange : ℕ → Job fl → Type 0
  InRange n rotating = Unit {0}
  InRange n (scanning i max_sat max_idx) = max_idx < n
  InRange n (resetting idx) = idx < n
  InRange n (snapping i) = Unit {0}
  InRange n (restoring i left) = All (All IsByte) left × (i + length left ≡ n)

  abbrev pub IsJob : ℕ → Option (Job fl) → Type 0
  IsJob n none = Unit {0}
  IsJob n (some j) = InRange n j

  -- What a step of the holder leaves.
  pub record IsAdvanced (rf rf' : RotatingFilter fl) (next : Option (Job fl)) : Type 0 where
    pub rotating : IsRotating fl rf'
    pub job : IsJob rf'.pf.count next
    pub later : IsLater rf rf'
    pub stopped : rf'.stopped ≡ rf.stopped

  abbrev pub Advances : RotatingFilter fl → Option (RotatingFilter fl × Option (Job fl)) → Type 0
  Advances rf r =
      (rf' : RotatingFilter fl) × (next : Option (Job fl)) × (r ≡ some (rf', next))
      × IsAdvanced rf rf' next

  pub same-IsAdvanced :
      (rf : RotatingFilter fl) (next : Option (Job fl))
      → IsRotating fl rf
      → IsJob rf.pf.count next
      → IsAdvanced rf rf next
  same-IsAdvanced rf next r j = record {
    rotating = r;
    job = j;
    later = IsLater-same rf rf refl refl;
    stopped = refl;
  }
