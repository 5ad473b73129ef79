-- ===== src/Stats/History.antt =====
-- The history of the collector of stats.go: its bound, and what a snapshot evicts.
use bloom_filter_jyy_0098_go.Base.{
  ℕ, zero, suc, ◌+◌, ◌/◌, ◌<◌, ◌≤◌, ◌≡◌, refl, List, [], ◌∷◌, ◌++◌, length, drop, take, arith,
  length-append, length-drop, length-take, max, leb, if◌then◌else◌, Bool-cases, inl, inr, ap,
}
use bloom_filter_jyy_0098_go.Float.{Floats}
use bloom_filter_jyy_0098_go.Stats.{
  Collector, Snapshot, take_snapshot, make_room, evicted, snapshot_of, new_collector,
}

module _ (fl : Floats) where
  open fl use {F}

  -- The buffer has room for a snapshot, and no more are kept than it holds.
  pub record IsBounded (c : Collector fl) : Type 0 where
    pub some_room : 0 < c.max_hist
    pub bounded : length c.history ≤ c.max_hist

  new_collector-IsBounded : (now max : ℕ) → IsBounded (new_collector fl now max)
  unfolding new_collector
  new_collector-IsBounded now max = record { some_room = ground arith; bounded = omega arith }

  evicted-eq-max : (n : ℕ) → evicted fl n ≡ max 1 (n / 10)
  unfolding evicted
  evicted-eq-max n = ground arith

  take-drop : {A : Type 0} (n : ℕ) (xs : List A) → xs ≡ take n xs ++ drop n xs
  take-drop zero xs = refl
  take-drop (suc n) [] = refl
  take-drop (suc n) (x ∷ xs) = ap (λ l. x ∷ l) (take-drop n xs)

  -- How many of n snapshots are dropped to make room for one more.
  abbrev dropped : ℕ → ℕ → ℕ
  dropped max_hist n = if leb max_hist n then max 1 (max_hist / 10) else 0

  make_room-eq-drop :
      (max_hist : ℕ) (history : List (Snapshot fl))
      → make_room fl max_hist history ≡ drop (dropped max_hist (length history)) history
  unfolding make_room
  make_room-eq-drop max_hist history = elim (Bool-cases (leb max_hist (length history))) [
    | inl full ↦ rw (full, evicted-eq-max max_hist) refl
    | inr room ↦ rw (room) refl
  ]

  -- `TakeSnapshot` keeps a bounded history within its bound, and appends the snapshot that it
  -- returns to what was there, of which it drops only the oldest: nothing if there is room, and
  -- else a tenth of the bound, at least one.
  pub take_snapshot-IsBounded :
      (now : ℕ) (s : F) (c : Collector fl)
      → IsBounded c
      → IsBounded (take_snapshot fl now s c).0
        × ((gone : List (Snapshot fl)) × (kept : List (Snapshot fl)) × (c.history ≡ gone ++ kept)
            × ((take_snapshot fl now s c).0.history ≡ kept ++ (take_snapshot fl now s c).1 ∷ [])
            × (length gone
                ≡ (if leb c.max_hist (length c.history) then max 1 (c.max_hist / 10) else 0)))
  unfolding take_snapshot
  take_snapshot-IsBounded now s c v =
      let n = dropped c.max_hist (length c.history) in
      let kept = drop n c.history in
      let fits : n ≤ length c.history = ground (arith, v.some_room) in
      let room : length kept + 1 ≤ c.max_hist =
        ground (arith, length-drop n c.history, v.some_room, v.bounded) in
      (
        record {
          some_room = v.some_room;
          bounded =
              rw (make_room-eq-drop c.max_hist c.history)
                (omega (arith, length-append kept (snapshot_of fl now s c ∷ [])));
        },
        (
          take n c.history,
          kept,
          take-drop n c.history,
          rw (make_room-eq-drop c.max_hist c.history) refl,
          omega (arith, length-take n c.history),
        ),
      )
