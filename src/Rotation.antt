-- ===== src/Rotation.antt =====
-- internal/partition/rotation.go: resetting the partitions of a filter one by one. The background
-- goroutine of `Start` makes the same call as `Rotate`, at each tick until `Stop`. Here each method runs
-- with nothing in between; `Loop` has them in steps. The time is an argument.
pub mod Cycle
pub mod Round
pub mod Expiry
pub mod Restoring
pub mod Loop
mod Tests
use bloom_filter_jyy_0098_go.Base.{
  ℕ, zero, suc, ◌+◌, ◌-◌, ◌%◌, Bool, true, false, not, Option, none, some, List, [], ◌∷◌, ◌++◌,
  length, get_or, set, ltb, leb, ◌==◌, if◌then◌else◌, Result, ok, err, panic, ◌>>=◌, map_err,
}
use bloom_filter_jyy_0098_go.Float.{Floats}
use bloom_filter_jyy_0098_go.Filter.{BloomFilter, new_from_parts}
use bloom_filter_jyy_0098_go.Filter.Ops.{count_bytes, popcnt}
use bloom_filter_jyy_0098_go.Partition
use bloom_filter_jyy_0098_go.Partition.{
  PartitionedFilter, PartitionError, partition_index, reset_partition,
}

pub data RotationError : Type 0 where
  rotation_stopped no_partitions : RotationError
  from_partition : PartitionError → RotationError

pub data Strategy : Type 0 where
  round_robin saturation : Strategy

-- `countBits` and `popcount` of partition.go, whose loops are those of filter/ops.go.
abbrev pub popcount : ℕ → ℕ
popcount b = popcnt b

abbrev pub count_bits : List ℕ → ℕ
count_bits bits = count_bytes bits 0

module _ (fl : Floats) where
  open fl use {F}

  -- `partition` is the index of the partition that was reset.
  pub record RotationEvent : Type 0 where
    pub timestamp : ℕ
    pub partition : ℕ
    pub strategy : Strategy
    pub before : F

  pub record RotatingFilter : Type 0 where
    pub pf : PartitionedFilter
    pub strategy : Strategy
    pub limit : F
    pub current : ℕ
    pub stopped : Bool
    pub history : List RotationEvent

  unfoldable pub new_rotating : ℕ → ℕ → ℕ → Strategy → F → Result RotationError RotatingFilter
  new_rotating partitions m k strategy limit = do
    pf ← map_err from_partition (Partition.new partitions m k)
    ok (record {
      pf = pf;
      strategy = strategy;
      limit = limit;
      current = 0;
      stopped = false;
      history = [];
    })

  -- `Saturation` of partition.go; a nil sub-filter panics.
  unfoldable pub saturation_of : PartitionedFilter → ℕ → Result PartitionError F
  saturation_of f idx =
      if leb f.count idx then err partition_index else elim (get_or f.partitions idx none) [
        | none ↦ panic
        | some p ↦ ok (fl.div (fl.of_int (count_bits p.bits)) (fl.of_uint f.m))
      ]

  -- `s, _ := rf.pf.Saturation(i)`
  unfoldable pub saturation_or_zero : PartitionedFilter → ℕ → Result RotationError F
  unfolding saturation_of
  saturation_or_zero f idx = elim (saturation_of f idx) [
    | ok s ↦ ok s
    | err e ↦ ok (fl.decimal 0 0)
    | panic ↦ panic
  ]

  -- The loop of `mostSaturated` from partition i on, with `left` to go.
  most_loop : PartitionedFilter → ℕ → ℕ → F → ℕ → Result RotationError (ℕ × F)
  unfolding saturation_or_zero
  most_loop f zero i max_sat max_idx = ok (max_idx, max_sat)
  most_loop f (suc left) i max_sat max_idx = elim (saturation_or_zero f i) [
    | ok s ↦
        most_loop f left (i + 1) (if fl.lt max_sat s then s else max_sat)
          (if fl.lt max_sat s then i else max_idx)
    | err e ↦ err e
    | panic ↦ panic
  ]

  unfoldable pub most_saturated : PartitionedFilter → Result RotationError (ℕ × F)
  unfolding most_loop
  most_saturated f = most_loop f f.count 0 (fl.decimal 0 0) 0

  -- The end of `rotateOnce`: the event is recorded, and the partition reset, whose error is dropped.
  unfoldable pub rotate_at : ℕ → RotatingFilter → ℕ → F → Result RotationError RotatingFilter
  unfolding reset_partition
  rotate_at now rf idx sat =
      let event : RotationEvent = record {
        timestamp = now;
        partition = idx;
        strategy = rf.strategy;
        before = sat;
      } in
      let rf' : RotatingFilter = record rf { history = rf.history ++ event ∷ [] } in
      elim (reset_partition rf.pf idx) [
        | ok pf ↦ ok (record rf' { pf = pf })
        | err e ↦ ok rf'
        | panic ↦ panic
      ]

  unfoldable pub rotate_saturated : ℕ → RotatingFilter → Result RotationError RotatingFilter
  unfolding most_saturated rotate_at
  rotate_saturated now rf = do
    found ← most_saturated rf.pf
    if fl.lt found.1 rf.limit then ok rf else rotate_at now rf found.0 found.1

  unfoldable pub rotate_next : ℕ → RotatingFilter → Result RotationError RotatingFilter
  unfolding saturation_or_zero rotate_at
  rotate_next now rf = do
    sat ← saturation_or_zero rf.pf rf.current
    rotate_at now (record rf { current = (rf.current + 1) % rf.pf.count }) rf.current sat

  unfoldable pub rotate_with : Strategy → ℕ → RotatingFilter → Result RotationError RotatingFilter
  unfolding rotate_saturated rotate_next
  rotate_with saturation now rf = rotate_saturated now rf
  rotate_with round_robin now rf = rotate_next now rf

  unfoldable pub rotate_once : ℕ → RotatingFilter → Result RotationError RotatingFilter
  unfolding rotate_with
  rotate_once now rf =
      if rf.pf.count == 0 then err no_partitions else rotate_with rf.strategy now rf

  unfoldable pub stop : RotatingFilter → Result RotationError RotatingFilter
  stop rf = if rf.stopped then err rotation_stopped else ok (record rf { stopped = true })

  -- The loop of `Snapshot` over the sub-filters.
  bits_of : List (Option BloomFilter) → Option (List (List ℕ))
  bits_of [] = some []
  bits_of (none ∷ ps) = none
  bits_of (some p ∷ ps) = elim (bits_of ps) [ none ↦ none | some rest ↦ some (p.bits ∷ rest) ]

  -- `none` is a panic on a nil sub-filter.
  unfoldable pub snapshot : RotatingFilter → Option (List (List ℕ))
  unfolding bits_of
  snapshot rf = bits_of rf.pf.partitions

  -- The loop of `Restore` from partition i on: the sub-filters so far are written even if a later
  -- one is refused.
  restore_loop : PartitionedFilter → ℕ → List (List ℕ) → PartitionedFilter × Option RotationError
  restore_loop f i [] = (f, none)
  restore_loop f i (bits ∷ snap) = elim (new_from_parts f.m f.k bits) [
    | ok bf ↦ restore_loop (record f { partitions = set f.partitions i (some bf) }) (i + 1) snap
    | err e ↦ (f, some (from_partition (Partition.from_filter e)))
    | panic ↦ (f, none)
  ]

  -- The new state, and the error if there is one.
  unfoldable pub restore : RotatingFilter → List (List ℕ) → RotatingFilter × Option RotationError
  unfolding restore_loop
  restore rf snap =
      if not (length snap == rf.pf.count)
      then (rf, some (from_partition Partition.invalid_partitions))
      else let r = restore_loop rf.pf 0 snap in (record rf { pf = r.0 }, r.1)
