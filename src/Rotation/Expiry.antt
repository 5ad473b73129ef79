-- ===== src/Rotation/Expiry.antt =====
-- What `Test` of rotation.go reports during and after a round of round-robin rotations.
use bloom_filter_jyy_0098_go.Base.{
  ap, ◌∙◌, ℕ, ◌<◌, ◌≤◌, ◌≡◌, refl, List, length, arith, ok, some, true, false,
}
use bloom_filter_jyy_0098_go.Float.{Floats}
use bloom_filter_jyy_0098_go.Filter
use bloom_filter_jyy_0098_go.Filter.{BloomFilter}
use bloom_filter_jyy_0098_go.Filter.Membership.{test-zeros, test-add}
use bloom_filter_jyy_0098_go.Partition
use bloom_filter_jyy_0098_go.Partition.{new_part, test_all, PartitionedFilter}
use bloom_filter_jyy_0098_go.Partition.Valid.{new_part-eq, empty_part, index_of, route-lt}
use bloom_filter_jyy_0098_go.Partition.Membership.{
  test_any-none, test_any-part, part_of, test-eq-part, added, add-eq-added, added-IsPartitioned,
  get-added,
}
use bloom_filter_jyy_0098_go.Rotation.{RotatingFilter, round_robin}
use bloom_filter_jyy_0098_go.Rotation.Cycle.{IsRotating}
use bloom_filter_jyy_0098_go.Rotation.Round.{
  rotate_all, rotate_all-IsAfter, turns_before, turns_before-lt,
}

-- After as many round-robin rotations in a row as there are partitions, in any state of a
-- well-formed rotating filter, no item is reported any more: what was added before them has expired.
pub test_all-rotate_all :
    (fl : Floats) (times : List ℕ) (rf : RotatingFilter fl) (item : List ℕ)
    → IsRotating fl rf
    → rf.strategy ≡ round_robin
    → length times ≡ rf.pf.count
    → (rf' : RotatingFilter fl) × (rotate_all fl times rf ≡ ok rf')
      × IsRotating fl rf'
      × (test_all rf'.pf item ≡ some false)
unfolding test_all
test_all-rotate_all fl times rf item r e n =
    let v = r.valid in
    let t = rotate_all-IsAfter fl times rf r e (omega arith) in
    let p = empty_part rf.pf.m rf.pf.k in
    (
      t.0,
      t.1,
      t.2.rotating,
      test_any-none item p t.0.pf.partitions
          (λ i h.
            let b : i < rf.pf.count = omega (arith, t.2.rotating.valid.sized, t.2.same_count) in
            let fresh = new_part-eq rf.pf.m rf.pf.k v.m_pos v.k_pos in
            ground
              (arith, t.2.part i b, fresh, turns_before-lt rf.pf.count rf.current i r.in_range b))
          (test-zeros p (Filter.bytes_for rf.pf.m) item v.k_pos refl),
    )

-- An item is reported until the turn of the partition it is in.
test_all-rotate_all_found :
    (fl : Floats) (times : List ℕ) (rf : RotatingFilter fl) (item : List ℕ)
    → IsRotating fl rf
    → rf.strategy ≡ round_robin
    → Partition.test rf.pf item ≡ some true
    → length times ≤ turns_before rf.pf.count rf.current (index_of rf.pf item)
    → (rf' : RotatingFilter fl) × (rotate_all fl times rf ≡ ok rf')
      × IsRotating fl rf'
      × (test_all rf'.pf item ≡ some true)
unfolding test_all
test_all-rotate_all_found fl times rf item r e found n =
    let i = index_of rf.pf item in
    let b = (route-lt rf.pf item r.valid).1 in
    let room = turns_before-lt rf.pf.count rf.current i r.in_range b in
    let t = rotate_all-IsAfter fl times rf r e (omega arith) in
    let q = part_of rf.pf item r.valid in
    (
      t.0,
      t.1,
      t.2.rotating,
      test_any-part item t.0.pf.m t.0.pf.k t.0.pf.partitions i q.part t.2.rotating.valid.parts
          (ground (arith, t.2.part i b, q.is))
          (ground (arith, test-eq-part rf.pf item r.valid q.is)),
    )

-- `Add` to a well-formed rotating filter does not panic, and the item is still reported after
-- round-robin rotations, as long as there are no more of them than come before the turn of the
-- partition that it is routed to.
pub test_all-add-rotate_all :
    (fl : Floats) (times : List ℕ) (rf : RotatingFilter fl) (item : List ℕ)
    → IsRotating fl rf
    → rf.strategy ≡ round_robin
    → length times ≤ turns_before rf.pf.count rf.current (index_of rf.pf item)
    → (g : PartitionedFilter) × (Partition.add rf.pf item ≡ some g)
      × (rf' : RotatingFilter fl) × (rotate_all fl times (record rf { pf = g }) ≡ ok rf')
      × IsRotating fl rf'
      × (test_all rf'.pf item ≡ some true)
test_all-add-rotate_all fl times rf item r e n =
    let v = r.valid in
    let p = part_of rf.pf item v in
    let g = added rf.pf item p.part in
    let w = added-IsPartitioned rf.pf item v in
    let kept =
      test_all-rotate_all_found fl times (record rf { pf = g }) item
        (record { valid = w; in_range = r.in_range }) e
        (test-eq-part g item w (get-added rf.pf item v) ∙ ap some (test-add p.part item p.valid))
        n in
    (g, add-eq-added rf.pf item v, kept.0, kept.1, kept.2, kept.3)
