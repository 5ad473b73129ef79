-- ===== src/Partition/Tests.antt =====
-- The theorems on partitioned filters at a concrete one.
use bloom_filter_jyy_0098_go.Base.{
  ℕ, ◌≡◌, ◌≢◌, refl, List, [], ◌∷◌, arith, some, true, ok, replicate, All-replicate,
}
use bloom_filter_jyy_0098_go.Filter.{BloomFilter}
use bloom_filter_jyy_0098_go.Partition.{PartitionedFilter, new, add, test, route, new_part}
use bloom_filter_jyy_0098_go.Partition.Valid.{IsPartitioned, fresh_part, IsPart}
use bloom_filter_jyy_0098_go.Partition.Membership.{test-add_routed}

abbrev pub three : PartitionedFilter
three = record { partitions = replicate 3 (new_part 16 2); count = 3; m = 16; k = 2 }

new-three : new 3 16 2 ≡ ok three
unfolding new new_part bloom_filter_jyy_0098_go.Filter.new
new-three = refl

pub three-IsPartitioned : IsPartitioned three
three-IsPartitioned = record {
  some_parts = omega arith;
  few_parts = omega arith;
  m_pos = omega arith;
  m_fits = omega arith;
  k_pos = omega arith;
  k_fits = omega arith;
  sized = refl;
  parts =
      All-replicate (IsPart 16 2) 3 (new_part 16 2)
        (fresh_part 16 2 (omega arith) (omega arith) (omega arith) (omega arith));
}

abbrev pub apple : List ℕ
apple = b'a' ∷ b'p' ∷ []

abbrev pear : List ℕ
pear = b'p' ∷ []

test-add_routed_example :
    (g : PartitionedFilter) × (add three apple ≡ some g)
    × IsPartitioned g
    × (test g apple ≡ some true)
test-add_routed_example = test-add_routed three apple three-IsPartitioned

with_apple :
    (g : PartitionedFilter) × (add three apple ≡ some g)
    × IsPartitioned g
    × (test g apple ≡ some true)
with_apple = test-add_routed three apple three-IsPartitioned

route_runs : route three apple ≡ some 2
unfolding route bloom_filter_jyy_0098_go.Hash.hash bloom_filter_jyy_0098_go.Std.Fnv.sum64a
    bloom_filter_jyy_0098_go.Std.Fnv.sum64
route_runs = refl

not_to_0 : route three apple ≢ some 0
not_to_0 = ground (arith, route_runs)
