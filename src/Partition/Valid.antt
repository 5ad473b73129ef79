-- ===== src/Partition/Valid.antt =====
-- Well-formed partitioned filters: what `New` establishes and `Add` and `ResetPartition` keep.
use bloom_filter_jyy_0098_go.Base.{
  ℕ, zero, suc, ◌+◌, ◌*◌, ◌%◌, ◌^◌, ◌<◌, ◌≡◌, refl, ◌∙◌, Option, none, some, List, [], ◌∷◌, length,
  get_or, set, replicate, arith, ok, All, All-set, length-set,
}
use bloom_filter_jyy_0098_go.Hash.{hash}
use bloom_filter_jyy_0098_go.Hash.Bounds.{hash-lt}
use bloom_filter_jyy_0098_go.Filter
use bloom_filter_jyy_0098_go.Filter.{BloomFilter}
use bloom_filter_jyy_0098_go.Filter.Valid
use bloom_filter_jyy_0098_go.Filter.Valid.{new_ok, new-IsValid, add-IsValid}
use bloom_filter_jyy_0098_go.Partition.{PartitionedFilter, new_part, route, reset_partition}

-- A sub-filter of m bits with k hash functions.
pub record IsPart (m k : ℕ) (p : Option BloomFilter) : Type 0 where
  pub part : BloomFilter
  pub is : p ≡ some part
  pub valid : Valid.IsValid part
  pub same_m : part.m ≡ m
  pub same_k : part.k ≡ k

-- There are `count` sub-filters, all well-formed and of the same parameters, and so few that the
-- routing hash converts to a positive int.
pub record IsPartitioned (f : PartitionedFilter) : Type 0 where
  pub some_parts : 0 < f.count
  pub few_parts : f.count * 1000 < 2 ^ 63
  pub m_pos : 0 < f.m
  pub m_fits : f.m + 7 < 2 ^ 64
  pub k_pos : 0 < f.k
  pub k_fits : f.k < 2 ^ 64
  pub sized : length f.partitions ≡ f.count
  pub parts : All (IsPart f.m f.k) f.partitions

-- The sub-filter at an index in range.
pub part_at :
    {m k : ℕ} (ps : List (Option BloomFilter)) (i : ℕ)
    → All (IsPart m k) ps
    → i < length ps
    → IsPart m k (get_or ps i none)
part_at [] i h p = absurd (omega arith)
part_at (x ∷ ps) zero h p = h.0
part_at (x ∷ ps) (suc i) h p = part_at ps i h.1 (omega arith)

-- Where an item is routed.
abbrev pub index_of : PartitionedFilter → List ℕ → ℕ
index_of f item = hash item 0 (f.count * 1000) % f.count

-- The route is always a partition of the filter.
pub route-lt :
    (f : PartitionedFilter) (item : List ℕ)
    → IsPartitioned f
    → (route f item ≡ some (index_of f item)) × (index_of f item < f.count)
unfolding route
route-lt f item v =
    let fits : (f.count * 1000) % 2 ^ 64 ≡ f.count * 1000 = omega (arith, v.few_parts) in
    (
      rw fits (ground (arith, hash-lt item 0 (f.count * 1000), v.some_parts, v.few_parts)),
      omega (arith, v.some_parts),
    )

pub fresh_part : (m k : ℕ) → 0 < m → m + 7 < 2 ^ 64 → 0 < k → k < 2 ^ 64 → IsPart m k (new_part m k)
unfolding new_part Filter.new
fresh_part zero k a b c d = absurd (omega arith)
fresh_part (suc m) zero a b c d = absurd (omega arith)
fresh_part (suc m) (suc k) a b c d = record {
  part = record { m = suc m; k = suc k; bits = replicate (Filter.bytes_for (suc m)) 0 };
  is = ground arith;
  valid = new-IsValid (suc m) (suc k) b d (ground arith);
  same_m = refl;
  same_k = refl;
}

-- A new sub-filter of m bits with k hash functions.
abbrev pub empty_part : ℕ → ℕ → BloomFilter
empty_part m k = record { m = m; k = k; bits = replicate (Filter.bytes_for m) 0 }

pub new_part-eq : (m k : ℕ) → 0 < m → 0 < k → new_part m k ≡ some (empty_part m k)
unfolding new_part Filter.new
new_part-eq zero k h b = absurd (omega arith)
new_part-eq (suc m) zero h b = absurd (omega arith)
new_part-eq (suc m) (suc k) h b = ground arith

-- The filter with a new sub-filter at an index.
abbrev pub cleared : PartitionedFilter → ℕ → PartitionedFilter
cleared f i = record f { partitions = set f.partitions i (new_part f.m f.k) }

pub reset_partition-IsPartitioned :
    (f : PartitionedFilter) (i : ℕ)
    → IsPartitioned f
    → i < f.count
    → (reset_partition f i ≡ ok (cleared f i)) × IsPartitioned (cleared f i)
unfolding reset_partition
reset_partition-IsPartitioned f i v h =
    let p = new_part f.m f.k in
    (
      ground (arith, v.sized),
      record {
        some_parts = v.some_parts;
        few_parts = v.few_parts;
        m_pos = v.m_pos;
        m_fits = v.m_fits;
        k_pos = v.k_pos;
        k_fits = v.k_fits;
        sized = length-set f.partitions i p ∙ v.sized;
        parts =
            All-set (IsPart f.m f.k) f.partitions i p v.parts
              (fresh_part f.m f.k v.m_pos v.m_fits v.k_pos v.k_fits);
      },
    )
