-- ===== src/Filter.antt =====
-- internal/filter/filter.go: the bit array, `New`, `NewFromParts`, `Add` and `Test`.
-- A method that writes its receiver returns the new receiver. `uint` has 64 bits.
pub mod Sets
pub mod View
pub mod Valid
pub mod Membership
pub mod Ops
pub mod Sizing
pub mod Builder
pub mod Bag
pub mod Heap
mod Tests
use bloom_filter_jyy_0098_go.Base.{
  ℕ, zero, suc, ◌+◌, ◌/◌, ◌%◌, ◌^◌, Bool, true, false, ◌&&◌, ◌||◌, List, [], ◌∷◌, u64, length,
  get_or, set, replicate, leb, ◌==◌, if◌then◌else◌, bit_or, has_bit, Result, ok, err,
}
use bloom_filter_jyy_0098_go.Hash.{hash}

-- The errors of the package: filter.go, ops.go and builder.go.
pub data FilterError : Type 0 where
  invalid_params bits_length_mismatch nil_filter param_mismatch : FilterError
  builder_no_items bad_fpr_scale : FilterError

pub record BloomFilter : Type 0 where
  pub m : ℕ
  pub k : ℕ
  pub bits : List ℕ

-- `(m + 7) / 8`; the sum wraps.
unfoldable pub bytes_for : ℕ → ℕ
bytes_for m = u64 (m + 7) / 8

unfoldable pub new : ℕ → ℕ → Result FilterError BloomFilter
unfolding bytes_for
new m k =
    if m == 0 || k == 0
    then err invalid_params
    else ok (record { m = m; k = k; bits = replicate (bytes_for m) 0 })

unfoldable pub new_from_parts : ℕ → ℕ → List ℕ → Result FilterError BloomFilter
unfolding bytes_for
new_from_parts m k bits =
    if m == 0 || k == 0
    then err invalid_params
    else let need = bytes_for m in
      if length bits == need
      then ok (record { m = m; k = k; bits = bits })
      else err bits_length_mismatch

-- `f.set(idx)`
unfoldable pub set_idx : BloomFilter → ℕ → BloomFilter
set_idx f idx =
    let bi = idx / 8 in
    if leb (length f.bits) bi
    then f
    else record f { bits = set f.bits bi (bit_or (get_or f.bits bi 0) (2 ^ (idx % 8))) }

-- `f.get(idx)`
unfoldable pub get_idx : BloomFilter → ℕ → Bool
get_idx f idx =
    let bi = idx / 8 in
    if leb (length f.bits) bi then false else has_bit (get_or f.bits bi 0) (idx % 8)

-- The loop of `Add` from round i on, with `left` rounds to go.
pub add_loop : List ℕ → ℕ → ℕ → BloomFilter → BloomFilter
add_loop item zero i f = f
add_loop item (suc left) i f = add_loop item left (i + 1) (set_idx f (hash item i f.m))

unfoldable pub add : BloomFilter → List ℕ → BloomFilter
unfolding add_loop set_idx
add f item = add_loop item f.k 0 f

test_loop : List ℕ → ℕ → ℕ → BloomFilter → Bool
test_loop item zero i f = true
test_loop item (suc left) i f =
    let rest = test_loop item left (i + 1) f in if get_idx f (hash item i f.m) then rest else false

unfoldable pub test : BloomFilter → List ℕ → Bool
unfolding test_loop get_idx
test f item = test_loop item f.k 0 f

-- `for _, it := range items { f.Add(it) }`
unfoldable pub add_all : BloomFilter → List (List ℕ) → BloomFilter
add_all f [] = f
add_all f (item ∷ items) = add_all (add f item) items
