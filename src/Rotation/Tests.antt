-- ===== src/Rotation/Tests.antt =====
-- The theorems on rotating filters at a concrete one.
use bloom_filter_jyy_0098_go.Base.{
  ℕ, ◌≡◌, refl, List, [], ◌∷◌, arith, some, true, false, ok, none, ◌≤◌, ◌<◌,
}
use bloom_filter_jyy_0098_go.Float.Sample.{thousandths}
use bloom_filter_jyy_0098_go.Partition
use bloom_filter_jyy_0098_go.Partition.{test_all, PartitionedFilter}
use bloom_filter_jyy_0098_go.Partition.Valid.{index_of, cleared, reset_partition-IsPartitioned}
use bloom_filter_jyy_0098_go.Partition.Tests.{three, three-IsPartitioned, apple}
use bloom_filter_jyy_0098_go.Partition.Membership.{
  added, part_of, add-eq-added, added-IsPartitioned,
}
use bloom_filter_jyy_0098_go.Filter.Ops.{count_bytes}
use bloom_filter_jyy_0098_go.Rotation.Loop
use bloom_filter_jyy_0098_go.Rotation.Loop.{
  System, Reach, advance, resetting, start_called, ticker_made, tick_taken, tick_locked, advanced,
  unlocked, add_called, stop_called, loop_returned, here, later,
}
use bloom_filter_jyy_0098_go.Rotation.Loop.Later.{IsLater}
use bloom_filter_jyy_0098_go.Rotation.Loop.Alone.{Alone}
use bloom_filter_jyy_0098_go.Rotation.Loop.Runs.{IsRunning, Reach-IsRunning}
use bloom_filter_jyy_0098_go.Rotation.{
  stop, saturation_or_zero, RotatingFilter, round_robin, saturation, snapshot, restore,
}
use bloom_filter_jyy_0098_go.Rotation.Cycle.{IsRotating}
use bloom_filter_jyy_0098_go.Rotation.Round.{rotate_all, turns_before}
use bloom_filter_jyy_0098_go.Rotation.Expiry.{test_all-rotate_all, test_all-add-rotate_all}
use bloom_filter_jyy_0098_go.Rotation.Restoring.{restore-snapshot}

abbrev rotating : RotatingFilter thousandths
rotating = record {
  pf = three;
  strategy = round_robin;
  limit = 500;
  current = 1;
  stopped = false;
  history = [];
}

rotating-IsRotating : IsRotating thousandths rotating
rotating-IsRotating = record { valid = three-IsPartitioned; in_range = omega arith }

test_all-rotate_all_example :
    (rf' : RotatingFilter thousandths) × (rotate_all thousandths (60 ∷ 120 ∷ 180 ∷ []) rotating
      ≡ ok rf')
    × IsRotating thousandths rf'
    × (test_all rf'.pf apple ≡ some false)
test_all-rotate_all_example =
    test_all-rotate_all thousandths (60 ∷ 120 ∷ 180 ∷ []) rotating apple rotating-IsRotating refl
      refl

index_runs : index_of three apple ≡ 2
unfolding bloom_filter_jyy_0098_go.Hash.hash bloom_filter_jyy_0098_go.Std.Fnv.sum64a
    bloom_filter_jyy_0098_go.Std.Fnv.sum64
index_runs = refl

one_turn : 1 ≤ turns_before 3 1 (index_of three apple)
unfolding turns_before
one_turn = rw (index_runs) (omega arith)

test_all-add-rotate_all_example :
    (g : PartitionedFilter) × (Partition.add three apple ≡ some g)
    × (rf' : RotatingFilter thousandths) × (rotate_all thousandths
          (60 ∷ [])
          (record rotating { pf = g })
        ≡ ok rf')
    × IsRotating thousandths rf'
    × (test_all rf'.pf apple ≡ some true)
test_all-add-rotate_all_example =
    test_all-add-rotate_all thousandths (60 ∷ []) rotating apple rotating-IsRotating refl one_turn

abbrev other : RotatingFilter thousandths
other = record rotating { current = 0; stopped = true }

other-IsRotating : IsRotating thousandths other
other-IsRotating = record { valid = three-IsPartitioned; in_range = omega arith }

restore-snapshot_example :
    (snap : List (List ℕ)) × (snapshot thousandths rotating ≡ some snap)
    × (restore thousandths other snap ≡ (record other { pf = three }, none))
restore-snapshot_example =
    restore-snapshot thousandths rotating other rotating-IsRotating other-IsRotating refl refl refl

abbrev idle : System thousandths
idle = record {
  rf = rotating;
  closes = 0;
  starting = 0;
  waiting = 0;
  ticked = 0;
  job = none;
  by_loop = false;
  crashed = false;
}

idle-IsRunning : IsRunning thousandths idle
idle-IsRunning = record {
  rotating = rotating-IsRotating;
  alive = refl;
  closed_once = refl;
  job = tt;
}

-- The rotation of a tick at 60 has logged its event; the item comes before the reset.
abbrev logged_at_60 : RotatingFilter thousandths
logged_at_60 = record rotating {
  current = 2;
  history = (record { timestamp = 60; partition = 1; strategy = round_robin; before = 0 }) ∷ [];
}

logging_runs :
    advance thousandths 60 Loop.rotating rotating ≡ some (logged_at_60, some (resetting 1))
unfolding advance saturation_or_zero count_bytes Partition.new_part
    bloom_filter_jyy_0098_go.Filter.new
logging_runs = refl

abbrev with_apple : PartitionedFilter
with_apple = added three apple (part_of three apple three-IsPartitioned).part

adding_runs :
    Loop.add thousandths logged_at_60 apple ≡ some (record logged_at_60 { pf = with_apple })
unfolding Loop.add
adding_runs = rw (Loop.add, add-eq-added three apple three-IsPartitioned) refl

abbrev turned_at_60 : RotatingFilter thousandths
turned_at_60 = record logged_at_60 { pf = cleared with_apple 1 }

reset_runs :
    advance thousandths 60 (resetting 1) (record logged_at_60 { pf = with_apple })
    ≡ some (turned_at_60, none)
unfolding advance
reset_runs =
    rw
      (
        advance,
        Loop.reset_at,
        (reset_partition-IsPartitioned with_apple 1
            (added-IsPartitioned three apple three-IsPartitioned) (omega arith)).0,
      )
      refl

abbrev ended : System thousandths
ended = record idle { rf = record turned_at_60 { stopped = true }; closes = 1 }

stopped_run : stop thousandths turned_at_60 ≡ ok (record turned_at_60 { stopped = true })
unfolding stop
stopped_run = refl

-- `Start`, a tick, an `Add` between the two halves of its rotation, then `Stop` while the loop waits,
-- and then its return.
run : Reach thousandths 60 idle ended
run =
    let one : 0 < 1 = omega arith in
    let made = later (later here start_called) (ticker_made one (omega arith)) in
    let locked = later (later made (tick_taken one)) (tick_locked one refl) in
    let logged = later locked (advanced 60 refl logging_runs) in
    let added_to = later logged (add_called apple adding_runs) in
    let turned = later added_to (unlocked 60 refl reset_runs) in
    later (later turned (stop_called refl stopped_run)) (loop_returned one one)

Reach-IsRunning_example : IsRunning thousandths ended × IsLater thousandths rotating ended.rf
Reach-IsRunning_example = Reach-IsRunning thousandths (omega arith) idle-IsRunning run

-- Here the most saturated partition is chosen, where all are empty and the limit is 0.
abbrev by_saturation : RotatingFilter thousandths
by_saturation = record rotating { strategy = saturation; limit = 0 }
