-- ===== src/Counting/Positions.antt =====
-- Well-formed counting filters, and the bits that their counters take.
use bloom_filter_jyy_0098_go.Base.{
  ℕ, ◌+◌, ◌*◌, ◌/◌, ◌%◌, ◌^◌, ◌<◌, ◌≤◌, ◌≡◌, List, length, get_or, arith, All, IsByte, Bool, true,
  false, ◌==◌, if◌then◌else◌, bit_or, bit_clear, length-set, get_or-set_self, get_or-set_ne,
  All-set, All-get_or, bit_or-lt, bit_clear-lt, two_pow-lt, has_bit-bit_or, has_bit-bit_clear,
  has_bit-pow,
}
use native.Mathlib.Decide.{ℕ_discrete}
use bloom_filter_jyy_0098_go.Counting.{CountingFilter, max_of, data_len, bit_at, put_bit}

-- The parameters that `New` accepts, an array of the size that they need, and no wrap-around in
-- the computation of that size.
pub record IsCounting (f : CountingFilter) : Type 0 where
  pub m_pos : 0 < f.m
  pub k_pos : 0 < f.k
  pub counter_pos : 0 < f.counter_bits
  pub counter_few : f.counter_bits ≤ 8
  pub no_wrap : f.m * f.counter_bits + 7 < 2 ^ 64
  pub max_is : f.max_count ≡ max_of f.counter_bits
  pub sized : length f.bytes ≡ data_len f.m f.counter_bits
  pub all_bytes : All IsByte f.bytes

pub length-put_bit :
    (bytes : List ℕ) (j : ℕ) (on : Bool) → length (put_bit bytes j on) ≡ length bytes
unfolding put_bit
length-put_bit bytes j on = length-set bytes (j / 8) _

-- A bit that is written reads as written, and no other bit changes.
pub bit_at-put_bit :
    (bytes : List ℕ) (j i : ℕ) (on : Bool)
    → j / 8 < length bytes
    → bit_at (put_bit bytes j on) i ≡ (if j == i then on else bit_at bytes i)
unfolding bit_at put_bit
bit_at-put_bit bytes j i true h = elim (ℕ_discrete (j / 8) (i / 8)) [
  | yes e ↦ ground (
    arith,
    length-set bytes (j / 8) (bit_or (get_or bytes (j / 8) 0) (2 ^ (j % 8))),
    get_or-set_self bytes (j / 8) (bit_or (get_or bytes (j / 8) 0) (2 ^ (j % 8))) 0 h,
    has_bit-bit_or (get_or bytes (j / 8) 0) (2 ^ (j % 8)) (i % 8),
    has_bit-pow (j % 8) (i % 8),
  )
  | no ne ↦ ground (
    arith,
    length-set bytes (j / 8) (bit_or (get_or bytes (j / 8) 0) (2 ^ (j % 8))),
    get_or-set_ne bytes (j / 8) (i / 8) (bit_or (get_or bytes (j / 8) 0) (2 ^ (j % 8))) 0 ne,
  )
]
bit_at-put_bit bytes j i false h = elim (ℕ_discrete (j / 8) (i / 8)) [
  | yes e ↦ ground (
    arith,
    length-set bytes (j / 8) (bit_clear (get_or bytes (j / 8) 0) (2 ^ (j % 8))),
    get_or-set_self bytes (j / 8) (bit_clear (get_or bytes (j / 8) 0) (2 ^ (j % 8))) 0 h,
    has_bit-bit_clear (get_or bytes (j / 8) 0) (2 ^ (j % 8)) (i % 8),
    has_bit-pow (j % 8) (i % 8),
  )
  | no ne ↦ ground (
    arith,
    length-set bytes (j / 8) (bit_clear (get_or bytes (j / 8) 0) (2 ^ (j % 8))),
    get_or-set_ne bytes (j / 8) (i / 8) (bit_clear (get_or bytes (j / 8) 0) (2 ^ (j % 8))) 0 ne,
  )
]

pub put_bit-IsByte :
    (bytes : List ℕ) (j : ℕ) (on : Bool) → All IsByte bytes → All IsByte (put_bit bytes j on)
unfolding put_bit
put_bit-IsByte bytes j true h =
    All-set IsByte bytes (j / 8) (bit_or (get_or bytes (j / 8) 0) (2 ^ (j % 8))) h (
      bit_or-lt 8 (get_or bytes (j / 8) 0) (2 ^ (j % 8))
        (All-get_or IsByte bytes (j / 8) 0 h (omega arith)) (two_pow-lt (j % 8) (omega arith)))
put_bit-IsByte bytes j false h =
    All-set IsByte bytes (j / 8) (bit_clear (get_or bytes (j / 8) 0) (2 ^ (j % 8))) h (
      bit_clear-lt 8 (get_or bytes (j / 8) 0) (2 ^ (j % 8))
        (All-get_or IsByte bytes (j / 8) 0 h (omega arith)))
