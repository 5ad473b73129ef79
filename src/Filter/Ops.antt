-- ===== src/Filter/Ops.antt =====
-- internal/filter/ops.go: bulk operations on filters, single bits and counts. A `*BloomFilter`
-- argument that may be nil is an `Option`.
pub mod Bytes
pub mod Algebra
pub mod Merged
pub mod Single
pub mod Count
use bloom_filter_jyy_0098_go.Base.{
  ℕ, zero, suc, ◌+◌, ◌-◌, ◌/◌, ◌%◌, ◌^◌, Bool, true, false, not, ◌&&◌, ◌||◌, Option, none, some,
  List, [], ◌∷◌, length, get_or, set, leb, ◌==◌, if◌then◌else◌, bit_and, bit_or, bit_xor, bit_clear,
  has_bit, Result, ok, err, panic, ◌>>=◌,
}
use bloom_filter_jyy_0098_go.Filter.{BloomFilter, FilterError, nil_filter, param_mismatch}

-- `for i := range f.bits { f.bits[i] = 0 }`
unfoldable pub clear_bytes : List ℕ → List ℕ
clear_bytes [] = []
clear_bytes (b ∷ bs) = 0 ∷ clear_bytes bs

unfoldable pub reset : BloomFilter → BloomFilter
unfolding clear_bytes
reset f = record f { bits = clear_bytes f.bits }

-- `f.m != other.m || f.k != other.k`
unfoldable pub mismatch : BloomFilter → BloomFilter → Bool
mismatch f other = not (f.m == other.m) || not (f.k == other.k)

-- `for i := range xs { xs[i] = op(xs[i], ys[i]) }`; a second slice that is shorter panics.
unfoldable pub zip_bytes : {E : Type 0} → (ℕ → ℕ → ℕ) → List ℕ → List ℕ → Result E (List ℕ)
zip_bytes op [] ys = ok []
zip_bytes op (x ∷ xs) [] = panic
zip_bytes op (x ∷ xs) (y ∷ ys) = do rest ← zip_bytes op xs ys; ok (op x y ∷ rest)

-- The shape that `Union`, `Intersection`, `Difference` and `XOR` share.
unfoldable pub combine :
    (ℕ → ℕ → ℕ) → BloomFilter → Option BloomFilter → Result FilterError BloomFilter
unfolding mismatch zip_bytes
combine op f none = err nil_filter
combine op f (some other) =
    if mismatch f other
    then err param_mismatch
    else do bits ← zip_bytes op f.bits other.bits; ok (record f { bits = bits })

unfoldable pub union : BloomFilter → Option BloomFilter → Result FilterError BloomFilter
unfolding combine
union = combine bit_or

unfoldable pub intersection : BloomFilter → Option BloomFilter → Result FilterError BloomFilter
unfolding combine
intersection = combine bit_and

unfoldable pub difference : BloomFilter → Option BloomFilter → Result FilterError BloomFilter
unfolding combine
difference = combine bit_clear

unfoldable pub xor_with : BloomFilter → Option BloomFilter → Result FilterError BloomFilter
unfolding combine
xor_with = combine bit_xor

-- The comparison loop of `Equals`, on slices of one length.
bytes_equal : List ℕ → List ℕ → Bool
bytes_equal [] ys = true
bytes_equal (x ∷ xs) [] = false
bytes_equal (x ∷ xs) (y ∷ ys) = let rest = bytes_equal xs ys in if x == y then rest else false

unfoldable pub equals : BloomFilter → Option BloomFilter → Bool
unfolding mismatch bytes_equal
equals f none = false
equals f (some other) =
    if mismatch f other
    then false
    else if not (length f.bits == length other.bits)
    then false
    else bytes_equal f.bits other.bits

all_zero : List ℕ → Bool
all_zero [] = true
all_zero (b ∷ bs) = let rest = all_zero bs in if not (b == 0) then false else rest

unfoldable pub is_empty : BloomFilter → Bool
unfolding all_zero
is_empty f = all_zero f.bits

-- `for b != 0 { b &= b - 1; count++ }`; `none` means that the fuel ran out. Each round lowers b, so
-- that b + 1 tests of it are enough.
unfoldable pub popcnt_loop : ℕ → ℕ → ℕ → Option ℕ
popcnt_loop zero b count = none
popcnt_loop (suc fuel) b count = elim (b == 0) [
  | true ↦ some count
  | false ↦ popcnt_loop fuel (bit_and b (b - 1)) (count + 1)
]

-- The fuel does not run out; 256 would be the count if it did.
unfoldable pub popcnt : ℕ → ℕ
unfolding popcnt_loop
popcnt b = elim (popcnt_loop (suc b) b 0) [ none ↦ 256 | some count ↦ count ]

-- `for _, b := range bits { count += popcnt(b) }`
unfoldable pub count_bytes : List ℕ → ℕ → ℕ
unfolding popcnt
count_bytes [] count = count
count_bytes (b ∷ bs) count = count_bytes bs (count + popcnt b)

unfoldable pub pop_count : BloomFilter → ℕ
unfolding count_bytes
pop_count f = count_bytes f.bits 0

-- `f.bits[pos/8] |= 1 << (pos % 8)`, which panics when the byte is out of range.
unfoldable pub set_bit : BloomFilter → ℕ → Result FilterError BloomFilter
set_bit f pos =
    if leb f.m pos
    then ok f
    else if leb (length f.bits) (pos / 8)
    then panic
    else ok (record f {
      bits = set f.bits (pos / 8) (bit_or (get_or f.bits (pos / 8) 0) (2 ^ (pos % 8)));
    })

unfoldable pub clear_bit : BloomFilter → ℕ → Result FilterError BloomFilter
clear_bit f pos =
    if leb f.m pos
    then ok f
    else if leb (length f.bits) (pos / 8)
    then panic
    else ok (record f {
      bits = set f.bits (pos / 8) (bit_clear (get_or f.bits (pos / 8) 0) (2 ^ (pos % 8)));
    })

unfoldable pub get_bit : BloomFilter → ℕ → Result FilterError Bool
get_bit f pos =
    if leb f.m pos
    then ok false
    else if leb (length f.bits) (pos / 8)
    then panic
    else ok (has_bit (get_or f.bits (pos / 8) 0) (pos % 8))
