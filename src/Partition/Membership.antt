-- ===== src/Partition/Membership.antt =====
-- `Add`, `Test`, `TestAll` and `ResetPartition` of partition.go, seen from their callers.
use bloom_filter_jyy_0098_go.Base.{
  ℕ, zero, suc, ◌<◌, ◌≡◌, ◌≢◌, refl, sym, ap, ◌∙◌, Option, none, some, List, [], ◌∷◌, get_or, set,
  true, arith, ok, All, All-set, length-set, get_or-set_self, get_or-set_ne, length, false,
}
use native.Mathlib.Decide.{ℕ_discrete}
use bloom_filter_jyy_0098_go.Filter
use bloom_filter_jyy_0098_go.Filter.{BloomFilter}
use bloom_filter_jyy_0098_go.Filter.Valid.{add-IsValid}
use bloom_filter_jyy_0098_go.Filter.View.{params-add}
use bloom_filter_jyy_0098_go.Filter.Membership
use bloom_filter_jyy_0098_go.Filter.Membership.{test-add_mono}
use bloom_filter_jyy_0098_go.Partition.{
  PartitionedFilter, route, routed, add, add_at, test, test_all, test_any, reset_partition,
  new_part,
}
use bloom_filter_jyy_0098_go.Partition.Valid.{
  IsPartitioned, IsPart, part_at, index_of, route-lt, reset_partition-IsPartitioned, cleared,
}

-- The sub-filter that an item is routed to.
pub part_of :
    (f : PartitionedFilter) (item : List ℕ)
    → IsPartitioned f
    → IsPart f.m f.k (get_or f.partitions (index_of f item) none)
part_of f item v =
    part_at f.partitions (index_of f item) v.parts (omega (arith, v.sized, (route-lt f item v).1))

-- The sub-filters after an item is added.
abbrev pub added : (f : PartitionedFilter) (item : List ℕ) → BloomFilter → PartitionedFilter
added f item p = record f {
  partitions = set f.partitions (index_of f item) (some (Filter.add p item));
}

pub add-eq-added :
    (f : PartitionedFilter) (item : List ℕ) (v : IsPartitioned f)
    → add f item ≡ some (added f item (part_of f item v).part)
unfolding add add_at
add-eq-added f item v = ground (arith, route-lt f item v, (part_of f item v).is)

pub added-IsPartitioned :
    (f : PartitionedFilter) (item : List ℕ) (v : IsPartitioned f)
    → IsPartitioned (added f item (part_of f item v).part)
added-IsPartitioned f item v =
    let p = part_of f item v in
    record {
      some_parts = v.some_parts;
      few_parts = v.few_parts;
      m_pos = v.m_pos;
      m_fits = v.m_fits;
      k_pos = v.k_pos;
      k_fits = v.k_fits;
      sized = length-set f.partitions (index_of f item) (some (Filter.add p.part item)) ∙ v.sized;
      parts =
          All-set (IsPart f.m f.k) f.partitions (index_of f item) (some (Filter.add p.part item))
            v.parts
            (record {
              part = Filter.add p.part item;
              is = refl;
              valid = add-IsValid p.part item p.valid;
              same_m = (params-add p.part item).0 ∙ p.same_m;
              same_k = (params-add p.part item).1 ∙ p.same_k;
            });
    }

-- The sub-filter at the index where an item was added.
pub get-added :
    (f : PartitionedFilter) (item : List ℕ) (v : IsPartitioned f)
    → get_or (added f item (part_of f item v).part).partitions (index_of f item) none
      ≡ some (Filter.add (part_of f item v).part item)
get-added f item v =
    get_or-set_self f.partitions (index_of f item) (some (Filter.add (part_of f item v).part item))
      none (omega (arith, v.sized, (route-lt f item v).1))

-- `Test` asks the sub-filter that the item is routed to.
pub test-eq-part :
    (f : PartitionedFilter) (item : List ℕ) {p : BloomFilter}
    → IsPartitioned f
    → get_or f.partitions (index_of f item) none ≡ some p
    → test f item ≡ some (Filter.test p item)
unfolding test routed
test-eq-part f item v e = ground (arith, route-lt f item v, e)

-- `Add` on a valid partitioned filter does not panic and leaves it valid, and then `Test` reports
-- the item.
pub test-add_routed :
    (f : PartitionedFilter) (item : List ℕ)
    → IsPartitioned f
    → (g : PartitionedFilter) × (add f item ≡ some g) × IsPartitioned g × (test g item ≡ some true)
test-add_routed f item v =
    let p = part_of f item v in
    (
      added f item p.part,
      add-eq-added f item v,
      added-IsPartitioned f item v,
      test-eq-part (added f item p.part) item (added-IsPartitioned f item v) (get-added f item v)
          ∙ ap some (Membership.test-add p.part item p.valid),
    )

-- An item that `Test` reports in a valid partitioned filter is still reported after any other is
-- added, in the same partition or another.
pub test-add_other :
    (f : PartitionedFilter) (item other : List ℕ)
    → IsPartitioned f
    → test f item ≡ some true
    → (g : PartitionedFilter) × (add f other ≡ some g) × (test g item ≡ some true)
test-add_other f item other v h =
    let p = part_of f other v in
    let q = part_of f item v in
    let before : Filter.test q.part item ≡ true = ground (arith, test-eq-part f item v q.is) in
    let w = added-IsPartitioned f other v in
    (
      added f other p.part,
      add-eq-added f other v,
      elim (ℕ_discrete (index_of f other) (index_of f item)) [
        | yes same ↦
            let one : p.part ≡ q.part = ground (arith, p.is, q.is) in
            test-eq-part (added f other p.part) item w (
              ap (λ i. get_or (added f other p.part).partitions i none) (sym same)
              ∙ get-added f other v)
            ∙ ap some (
                ap (λ r. Filter.test (Filter.add r other) item) one
                ∙ test-add_mono q.part item other q.valid before)
        | no differ ↦
            test-eq-part (added f other p.part) item w (
              get_or-set_ne f.partitions (index_of f other) (index_of f item)
                (some (Filter.add p.part other)) none differ
              ∙ q.is)
            ∙ ap some before
      ],
    )

-- `ResetPartition` of an index in range succeeds on a valid partitioned filter, leaves it valid,
-- and what `Test` answers for an item that is routed to another partition does not change.
pub test-reset_partition :
    (f : PartitionedFilter) (i : ℕ) (item : List ℕ)
    → IsPartitioned f
    → i < f.count
    → route f item ≢ some i
    → (g : PartitionedFilter) × (reset_partition f i ≡ ok g)
      × IsPartitioned g
      × (test g item ≡ test f item)
test-reset_partition f i item v h ne =
    let q = part_of f item v in
    let r = reset_partition-IsPartitioned f i v h in
    let differ : i ≢ index_of f item = λ e. ne ((route-lt f item v).0 ∙ ap some (sym e)) in
    (
      cleared f i,
      r.0,
      r.1,
      test-eq-part (cleared f i) item r.1
            (get_or-set_ne f.partitions i (index_of f item) (new_part f.m f.k) none differ ∙ q.is)
          ∙ sym (test-eq-part f item v q.is),
    )

pub test_any-part :
    (item : List ℕ) (m k : ℕ) (ps : List (Option BloomFilter)) (i : ℕ) (p : BloomFilter)
    → All (IsPart m k) ps
    → get_or ps i none ≡ some p
    → Filter.test p item ≡ true
    → test_any item ps ≡ some true
unfolding test_any
test_any-part item m k [] i p h at t = ground arith
test_any-part item m k (none ∷ ps) i p h at t = ground (arith, h.0.is)
test_any-part item m k (some x ∷ ps) zero p h at t = ground (arith, at)
test_any-part item m k (some x ∷ ps) (suc i) p h at t =
    ground (arith, test_any-part item m k ps i p h.1 at t)

-- What `Test` reports in a valid partitioned filter, `TestAll` reports, too.
pub test-test_all :
    (f : PartitionedFilter) (item : List ℕ)
    → IsPartitioned f
    → test f item ≡ some true
    → test_all f item ≡ some true
unfolding test_all
test-test_all f item v h =
    let q = part_of f item v in
    test_any-part item f.m f.k f.partitions (index_of f item) q.part v.parts q.is
      (ground (arith, test-eq-part f item v q.is))

-- Sub-filters that do not report an item make a filter that does not.
pub test_any-none :
    (item : List ℕ) (p : BloomFilter) (ps : List (Option BloomFilter))
    → ((i : ℕ) → i < length ps → get_or ps i none ≡ some p)
    → Filter.test p item ≡ false
    → test_any item ps ≡ some false
unfolding test_any
test_any-none item p [] h t = refl
test_any-none item p (none ∷ ps) h t = absurd (ground (arith, h 0 (omega arith)))
test_any-none item p (some x ∷ ps) h t =
    ground (arith, h 0 (omega arith), test_any-none item p ps (λ i b. h (suc i) (omega arith)) t)
