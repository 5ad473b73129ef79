-- ===== src/Partition.antt =====
-- internal/partition/partition.go: several filters, one of which an item is routed to. A pointer to
-- a sub-filter may be nil, and `none` as a result is a panic: a nil filter, an index out of range,
-- or a division by zero.
pub mod Valid
pub mod Membership
pub mod Tests
use bloom_filter_jyy_0098_go.Base.{
  ℕ, zero, suc, ◌+◌, ◌-◌, ◌*◌, ◌%◌, ◌^◌, Bool, true, false, Option, none, some, List, [], ◌∷◌,
  length, get_or, set, replicate, u64, ltb, leb, ◌==◌, if◌then◌else◌, ◌||◌, Result, ok, err, panic,
}
use bloom_filter_jyy_0098_go.Hash.{hash}
use bloom_filter_jyy_0098_go.Filter
use bloom_filter_jyy_0098_go.Filter.{BloomFilter, FilterError}

-- `from_filter` is an error of `filter.New`.
pub data PartitionError : Type 0 where
  invalid_partitions invalid_params partition_index : PartitionError
  from_filter : FilterError → PartitionError

pub record PartitionedFilter : Type 0 where
  pub partitions : List (Option BloomFilter)
  pub count : ℕ
  pub m : ℕ
  pub k : ℕ

-- `bf, _ := filter.New(m, k)`: the pointer is nil if `New` fails.
unfoldable pub new_part : ℕ → ℕ → Option BloomFilter
new_part m k = elim (Filter.new m k) [ ok f ↦ some f | err e ↦ none | panic ↦ none ]

-- A number of partitions of 0 stands for any that is not positive. Every round of the loop makes
-- the same call.
unfoldable pub new : ℕ → ℕ → ℕ → Result PartitionError PartitionedFilter
new partitions m k =
    if partitions == 0
    then err invalid_partitions
    else if m == 0 || k == 0
    then err invalid_params
    else elim (Filter.new m k) [
      | ok bf ↦
          ok (record {
            partitions = replicate partitions (some bf);
            count = partitions;
            m = m;
            k = k;
          })
      | err e ↦ err (from_filter e)
      | panic ↦ panic
    ]

-- `int(h) % count`, where h from 2^63 on converts to a negative number; an index below 0 panics
-- where it is used.
unfoldable pub int_mod : ℕ → ℕ → Option ℕ
int_mod h count =
    if count == 0
    then none
    else if ltb h (2 ^ 63)
    then some (h % count)
    else if (2 ^ 64 - h) % count == 0
    then some 0
    else none

unfoldable pub route : PartitionedFilter → List ℕ → Option ℕ
unfolding int_mod
route f item = int_mod (hash item 0 (u64 (f.count * 1000))) f.count

-- `f.partitions[f.route(data)]`
unfoldable pub routed : PartitionedFilter → List ℕ → Option BloomFilter
unfolding route
routed f item = elim (route f item) [ none ↦ none | some idx ↦ get_or f.partitions idx none ]

add_at : PartitionedFilter → List ℕ → ℕ → Option PartitionedFilter
add_at f item idx = elim (get_or f.partitions idx none) [
  | none ↦ none
  | some bf ↦ some (record f { partitions = set f.partitions idx (some (Filter.add bf item)) })
]

unfoldable pub add : PartitionedFilter → List ℕ → Option PartitionedFilter
unfolding add_at route
add f item = elim (route f item) [ none ↦ none | some idx ↦ add_at f item idx ]

unfoldable pub test : PartitionedFilter → List ℕ → Option Bool
unfolding routed
test f item = elim (routed f item) [ none ↦ none | some bf ↦ some (Filter.test bf item) ]

-- The loop of `TestAll`.
unfoldable pub test_any : List ℕ → List (Option BloomFilter) → Option Bool
test_any item [] = some false
test_any item (none ∷ ps) = none
test_any item (some p ∷ ps) =
    let rest = test_any item ps in if Filter.test p item then some true else rest

unfoldable pub test_all : PartitionedFilter → List ℕ → Option Bool
unfolding test_any
test_all f item = test_any item f.partitions

-- `for i := range f.partitions { bf, _ := filter.New(f.m, f.k); f.partitions[i] = bf }`
unfoldable pub reset : PartitionedFilter → PartitionedFilter
unfolding new_part
reset f = record f { partitions = replicate (length f.partitions) (new_part f.m f.k) }

-- An index that is not below `count` stands for a negative one, too.
unfoldable pub reset_partition : PartitionedFilter → ℕ → Result PartitionError PartitionedFilter
unfolding new_part
reset_partition f idx =
    if leb f.count idx
    then err partition_index
    else if leb (length f.partitions) idx
    then panic
    else ok (record f { partitions = set f.partitions idx (new_part f.m f.k) })

unfoldable pub partition : PartitionedFilter → ℕ → Result PartitionError (Option BloomFilter)
partition f idx =
    if leb f.count idx
    then err partition_index
    else if leb (length f.partitions) idx
    then panic
    else ok (get_or f.partitions idx none)

unfoldable pub total_bits : PartitionedFilter → ℕ
total_bits f = u64 (f.m * f.count)
