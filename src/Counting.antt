-- ===== src/Counting.antt =====
-- internal/counting/counting.go: a filter of packed counters, which supports removal. `bytes` is the
-- field data, and `count` is a Go int, kept as its 64 bits.
pub mod Positions
pub mod Counters
pub mod Snapshot
pub mod Locks
pub mod RoundTrip
pub mod Tallies
pub mod Removal
pub mod Merged
pub mod Multiset
mod Tests
use bloom_filter_jyy_0098_go.Base.{
  ℕ, zero, suc, ◌+◌, ◌-◌, ◌*◌, ◌/◌, ◌%◌, ◌^◌, Bool, true, false, not, ◌&&◌, ◌||◌, Option, none,
  some, List, [], ◌∷◌, ◌++◌, length, get_or, set, take, drop, slice, replicate, u8, u32, u64, ltb,
  leb, ◌==◌, if◌then◌else◌, bit_or, bit_clear, has_bit, Result, ok, err, panic, max,
}
use bloom_filter_jyy_0098_go.Std.BigEndian.{put_uint32, uint32}
use bloom_filter_jyy_0098_go.Std.Crc32.{checksum_ieee}
use bloom_filter_jyy_0098_go.Hash.{hash}

pub data CountingError : Type 0 where
  invalid_params bad_counter_bits overflow underflow nil_filter param_mismatch : CountingError
  snapshot_too_short snapshot_bad_magic snapshot_crc snapshot_data_len : CountingError

pub record CountingFilter : Type 0 where
  pub m : ℕ
  pub k : ℕ
  pub counter_bits : ℕ
  pub max_count : ℕ
  pub bytes : List ℕ
  pub count : ℕ

-- `(1 << counterBits) - 1` in eight bits.
unfoldable pub max_of : ℕ → ℕ
max_of counter_bits = u8 (u8 (2 ^ counter_bits) + 255)

-- `(m*counterBits + 7) / 8`; both operations wrap.
unfoldable pub data_len : ℕ → ℕ → ℕ
data_len m counter_bits = u64 (u64 (m * counter_bits) + 7) / 8

unfoldable pub new : ℕ → ℕ → ℕ → Result CountingError CountingFilter
unfolding max_of data_len
new m k counter_bits =
    if m == 0 || k == 0 || counter_bits == 0
    then err invalid_params
    else if ltb 8 counter_bits
    then err bad_counter_bits
    else ok (record {
      m = m;
      k = k;
      counter_bits = counter_bits;
      max_count = max_of counter_bits;
      bytes = replicate (data_len m counter_bits) 0;
      count = 0;
    })

-- The bit at a position of the array, and false outside.
unfoldable pub bit_at : List ℕ → ℕ → Bool
bit_at bytes j = ltb (j / 8) (length bytes) && has_bit (get_or bytes (j / 8) 0) (j % 8)

-- The loop of `readBits` from round i on, with `left` rounds to go.
read_loop : List ℕ → ℕ → ℕ → ℕ → ℕ → ℕ
unfolding bit_at
read_loop bytes offset zero i result = result
read_loop bytes offset (suc left) i result =
    read_loop bytes offset left (i + 1)
      (if bit_at bytes (u64 (offset + i)) then bit_or result (u8 (2 ^ i)) else result)

unfoldable pub read_bits : List ℕ → ℕ → ℕ → ℕ
unfolding read_loop
read_bits bytes offset n = read_loop bytes offset n 0 0

-- One bit written: `|= 1 << bitIdx`, or `&^= 1 << bitIdx`.
unfoldable pub put_bit : List ℕ → ℕ → Bool → List ℕ
put_bit bytes j on =
    let b = get_or bytes (j / 8) 0 in
    set bytes (j / 8) (if on then bit_or b (2 ^ (j % 8)) else bit_clear b (2 ^ (j % 8)))

-- The loop of `writeBits`; it ends early at the end of the array.
write_loop : List ℕ → ℕ → ℕ → ℕ → ℕ → List ℕ
unfolding put_bit
write_loop bytes offset val zero i = bytes
write_loop bytes offset val (suc left) i = elim (leb (length bytes) (u64 (offset + i) / 8)) [
  | true ↦ bytes
  | false ↦ write_loop (put_bit bytes (u64 (offset + i)) (has_bit val i)) offset val left (i + 1)
]

unfoldable pub write_bits : List ℕ → ℕ → ℕ → ℕ → List ℕ
unfolding write_loop
write_bits bytes offset n val = write_loop bytes offset val n 0

unfoldable pub get_counter : CountingFilter → ℕ → ℕ
unfolding read_bits
get_counter f pos = read_bits f.bytes (u64 (pos * f.counter_bits)) f.counter_bits

unfoldable pub set_counter : CountingFilter → ℕ → ℕ → CountingFilter
unfolding write_bits
set_counter f pos val = record f {
  bytes = write_bits f.bytes (u64 (pos * f.counter_bits)) f.counter_bits val;
}

-- The loop of `positions` from round i on.
indices : List ℕ → ℕ → ℕ → ℕ → List ℕ
indices item m zero i = []
indices item m (suc left) i = hash item i m ∷ indices item m left (i + 1)

unfoldable pub positions : CountingFilter → List ℕ → List ℕ
unfolding indices
positions f item = indices item f.m f.k 0

-- `for _, pos := range positions { if v := cf.getCounter(pos); ok(v) { ... } }`: whether all
-- counters pass a test.
unfoldable pub all_counters : (ℕ → Bool) → CountingFilter → List ℕ → Bool
unfolding get_counter
all_counters passes f [] = true
all_counters passes f (p ∷ ps) =
    let rest = all_counters passes f ps in if passes (get_counter f p) then rest else false

-- `for _, pos := range positions { cf.setCounter(pos, step(cf.getCounter(pos))) }`
unfoldable pub step_counters : (ℕ → ℕ) → CountingFilter → List ℕ → CountingFilter
unfolding get_counter set_counter
step_counters step f [] = f
step_counters step f (p ∷ ps) = step_counters step (set_counter f p (step (get_counter f p))) ps

-- `v + 1` and `v - 1` in eight bits.
abbrev pub up : ℕ → ℕ
up v = u8 (v + 1)

abbrev pub down : ℕ → ℕ
down v = u8 (v + 255)

unfoldable pub add : CountingFilter → List ℕ → Result CountingError CountingFilter
unfolding all_counters step_counters positions
add f item =
    let ps = positions f item in
    if all_counters (λ v. ltb v f.max_count) f ps
    then (let f' = step_counters up f ps in ok (record f' { count = u64 (f'.count + 1) }))
    else err overflow

unfoldable pub remove : CountingFilter → List ℕ → Result CountingError CountingFilter
unfolding all_counters step_counters positions
remove f item =
    let ps = positions f item in
    if all_counters (λ v. not (v == 0)) f ps
    then (let f' = step_counters down f ps in
        ok (record f' { count = u64 (f'.count + (2 ^ 64 - 1)) }))
    else err underflow

unfoldable pub test : CountingFilter → List ℕ → Bool
unfolding all_counters positions
test f item = all_counters (λ v. not (v == 0)) f (positions f item)

unfoldable pub count_at : CountingFilter → ℕ → ℕ
unfolding get_counter
count_at f pos = if leb f.m pos then 0 else get_counter f pos

unfoldable pub reset : CountingFilter → CountingFilter
reset f = record f { bytes = replicate (length f.bytes) 0; count = 0 }
