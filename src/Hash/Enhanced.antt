-- ===== src/Hash/Enhanced.antt =====
-- internal/hash/enhanced.go: the hash strategies, several indices at once, and how well spread they
-- are. A uint64 sum or product wraps.
pub mod Positions
pub mod Sorting
use bloom_filter_jyy_0098_go.Base.{
  ℕ, zero, suc, ◌+◌, ◌-◌, ◌*◌, ◌/◌, ◌%◌, ◌^◌, List, [], ◌∷◌, ◌++◌, length, get_or, set, u64, ltb,
  leb, ◌==◌, ◌||◌, ◌&&◌, if◌then◌else◌,
}
use bloom_filter_jyy_0098_go.Float.{Floats}
use bloom_filter_jyy_0098_go.Std.Fnv.{sum64a}
use bloom_filter_jyy_0098_go.Std.LittleEndian.{put_uint64}
use bloom_filter_jyy_0098_go.Hash.{hash, fnv64a, fnv64}
use bloom_filter_jyy_0098_go.Hash.Murmur3.{murmur3_hash}

pub data Strategy : Type 0 where
  fnv murmur3 enhanced_double triple : Strategy

unfoldable pub enhanced_double_hash : List ℕ → ℕ → ℕ → ℕ
unfolding fnv64a fnv64
enhanced_double_hash item i m =
    if m == 0
    then 0
    else let correction = u64 (i * u64 (i + (2 ^ 64 - 1))) / 2 in
      u64 (fnv64a item + i * fnv64 item + correction) % m

unfoldable pub seeded_fnv64a : List ℕ → ℕ → ℕ
seeded_fnv64a item seed = sum64a (seed ∷ item)

unfoldable pub triple_hash : List ℕ → ℕ → ℕ → ℕ
unfolding fnv64a fnv64 seeded_fnv64a
triple_hash item i m =
    if m == 0 then 0 else u64 (fnv64a item + i * fnv64 item + i * i * seeded_fnv64a item 0x9e) % m

unfoldable pub hash_with_strategy : List ℕ → ℕ → ℕ → Strategy → ℕ
unfolding murmur3_hash enhanced_double_hash triple_hash hash
hash_with_strategy item i m murmur3 = murmur3_hash item i m
hash_with_strategy item i m enhanced_double = enhanced_double_hash item i m
hash_with_strategy item i m triple = triple_hash item i m
hash_with_strategy item i m fnv = hash item i m

-- The loop of `MultiHash` from index i on, with `left` to go.
multi_loop : List ℕ → ℕ → Strategy → ℕ → ℕ → List ℕ
unfolding hash_with_strategy
multi_loop item m s zero i = []
multi_loop item m s (suc left) i = hash_with_strategy item i m s ∷ multi_loop item m s left (i + 1)

-- The slice is nil where it is [] here.
unfoldable pub multi_hash : List ℕ → ℕ → ℕ → Strategy → List ℕ
unfolding multi_loop
multi_hash item k m s = if (m == 0) || (k == 0) then [] else multi_loop item m s k 0

-- The loop of `IndependentHashes`.
independent_loop : List ℕ → ℕ → ℕ → ℕ → List ℕ
independent_loop item m zero i = []
independent_loop item m (suc left) i =
    sum64a (item ++ put_uint64 i) % m ∷ independent_loop item m left (i + 1)

unfoldable pub independent_hashes : List ℕ → ℕ → ℕ → List ℕ
unfolding independent_loop
independent_hashes item k m = if (m == 0) || (k == 0) then [] else independent_loop item m k 0

-- The inner loop of the insertion sort, where j is one more than the source's: `key` moves down
-- from j to its place.
unfoldable pub shift : List ℕ → ℕ → ℕ → List ℕ
shift ps key zero = set ps 0 key
shift ps key (suc j) =
    let rest = shift (set ps (suc j) (get_or ps j 0)) key j in
    if ltb key (get_or ps j 0) then rest else set ps (suc j) key

-- The outer loop from index i on, with `left` to go.
unfoldable pub sort_loop : ℕ → ℕ → List ℕ → List ℕ
unfolding shift
sort_loop zero i ps = ps
sort_loop (suc left) i ps = sort_loop left (i + 1) (shift ps (get_or ps i 0) i)

unfoldable pub sort : List ℕ → List ℕ
unfolding sort_loop
sort ps = sort_loop (length ps - 1) 1 ps

module _ (fl : Floats) where
  open fl use {F}

  -- Newton's method, with `left` steps to go.
  newton : ℕ → F → F → F
  newton zero x guess = guess
  newton (suc left) x guess =
      newton left x (fl.div (fl.add guess (fl.div x guess)) (fl.decimal 2 0))

  unfoldable pub sqrt : F → F
  unfolding newton
  sqrt x =
      if fl.le x (fl.decimal 0 0) then fl.decimal 0 0 else newton 20 x (fl.div x (fl.decimal 2 0))

  -- The gaps between the sorted positions, the last of which goes around.
  gap_loop : List ℕ → ℕ → ℕ → ℕ → ℕ → List F
  gap_loop ps m k zero i =
      fl.add (fl.of_uint (u64 (m + (2 ^ 64 - get_or ps (k - 1) 0)))) (fl.of_uint (get_or ps 0 0))
      ∷ []
  gap_loop ps m k (suc left) i =
      fl.of_uint (u64 (get_or ps (i + 1) 0 + (2 ^ 64 - get_or ps i 0)))
      ∷ gap_loop ps m k left (i + 1)

  square_sum : F → List F → F → F
  square_sum ideal [] acc = acc
  square_sum ideal (g ∷ gaps) acc =
      let diff = fl.sub g ideal in square_sum ideal gaps (fl.add acc (fl.mul diff diff))

  -- `idealGap == 0` is written as at most and at least 0.
  unfoldable pub dispersion : List ℕ → ℕ → ℕ → Strategy → F
  unfolding multi_hash sort gap_loop square_sum sqrt
  dispersion item k m s =
      let one = fl.decimal 1 0 in
      if leb k 1 || (m == 0)
      then one
      else let ps = sort (multi_hash item k m s) in
        let ideal = fl.div (fl.of_uint m) (fl.of_uint k) in
        if fl.le ideal (fl.decimal 0 0) && fl.le (fl.decimal 0 0) ideal
        then one
        else let sum = square_sum ideal (gap_loop ps m k (k - 1) 0) (fl.decimal 0 0) in
          let cv = fl.div (sqrt (fl.div sum (fl.of_uint k))) ideal in fl.div one (fl.add one cv)
