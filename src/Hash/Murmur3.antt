-- ===== src/Hash/Murmur3.antt =====
-- internal/hash/murmur3.go: MurmurHash3 with 128 bits, in wrapping 64-bit arithmetic.
use bloom_filter_jyy_0098_go.Base.{
  ℕ, zero, suc, ◌+◌, ◌-◌, ◌*◌, ◌/◌, ◌%◌, ◌^◌, List, length, get_or, drop, u64, ltb, ◌==◌,
  if◌then◌else◌, bit_or, bit_xor, min,
}

abbrev c1_128 : ℕ
c1_128 = 0x87c37b91114253d5

abbrev c2_128 : ℕ
c2_128 = 0x4cf5ad432745937f

unfoldable pub rotl64 : ℕ → ℕ → ℕ
rotl64 x r = bit_or (u64 (x * 2 ^ r)) (x / 2 ^ (64 - r))

unfoldable pub fmix64 : ℕ → ℕ
fmix64 k =
    let a = u64 (bit_xor k (k / 2 ^ 33) * 0xff51afd7ed558ccd) in
    let b = u64 (bit_xor a (a / 2 ^ 33) * 0xc4ceb9fe1a85ec53) in bit_xor b (b / 2 ^ 33)

-- `uint64(data[off]) | uint64(data[off+1])<<8 | ...`, for n bytes.
block_bytes : List ℕ → ℕ → ℕ → ℕ
block_bytes bytes off zero = 0
block_bytes bytes off (suc n) =
    bit_or (block_bytes bytes off n) (get_or bytes (off + n) 0 * 2 ^ (8 * n))

unfoldable pub get_block64 : List ℕ → ℕ → ℕ
unfolding block_bytes
get_block64 bytes idx =
    if ltb (length bytes) (idx * 8 + 8) then 0 else block_bytes bytes (idx * 8) 8

-- The two sums.
record Sums : Type 0 where
  h1 : ℕ
  h2 : ℕ

-- `k *= a; k = rotl64(k, r); k *= b`
mix : ℕ → ℕ → ℕ → ℕ → ℕ
unfolding rotl64
mix k a r b = u64 (rotl64 (u64 (k * a)) r * b)

-- One round of the loop over the blocks of sixteen bytes.
block_round : List ℕ → ℕ → Sums → Sums
unfolding get_block64 mix
block_round bytes i s =
    let k1 = mix (get_block64 bytes (i * 2)) c1_128 31 c2_128 in
    let k2 = mix (get_block64 bytes (i * 2 + 1)) c2_128 33 c1_128 in
    let h1 = u64 (u64 (rotl64 (bit_xor s.h1 k1) 27 + s.h2) * 5 + 0x52dce729) in
    let h2 = u64 (u64 (rotl64 (bit_xor s.h2 k2) 31 + h1) * 5 + 0x38495ab5) in
    record { h1 = h1; h2 = h2 }

block_loop : List ℕ → ℕ → ℕ → Sums → Sums
unfolding block_round
block_loop bytes zero i s = s
block_loop bytes (suc left) i s = block_loop bytes left (i + 1) (block_round bytes i s)

-- The cases of the switch that fall through from the n-th byte after `base` down to the first:
-- `k ^= uint64(tail[base+j]) << 8*j`.
xor_bytes : List ℕ → ℕ → ℕ → ℕ → ℕ
xor_bytes tail base zero k = k
xor_bytes tail base (suc n) k =
    xor_bytes tail base n (bit_xor k (get_or tail (base + n) 0 * 2 ^ (8 * n)))

-- The switch on the length of the tail, which is below sixteen.
tail_round : List ℕ → Sums → Sums
unfolding xor_bytes mix
tail_round tail s =
    let n = length tail % 16 in
    let k1 = xor_bytes tail 0 (min n 8) 0 in
    let k2 = xor_bytes tail 8 (n - 8) 0 in
    record {
      h1 = if ltb 0 n then bit_xor s.h1 (mix k1 c1_128 31 c2_128) else s.h1;
      h2 = if ltb 8 n then bit_xor s.h2 (mix k2 c2_128 33 c1_128) else s.h2;
    }

finish : ℕ → Sums → Sums
unfolding fmix64
finish len s =
    let a = bit_xor s.h1 len in
    let b = bit_xor s.h2 len in
    let a' = u64 (a + b) in
    let b' = u64 (b + a') in
    let x = fmix64 a' in
    let y = fmix64 b' in record { h1 = u64 (x + y); h2 = u64 (y + u64 (x + y)) }

unfoldable pub murmur3_sum128 : List ℕ → ℕ → ℕ × ℕ
unfolding block_loop tail_round finish
murmur3_sum128 bytes seed =
    let n_blocks = length bytes / 16 in
    let s = block_loop bytes n_blocks 0 (record { h1 = seed; h2 = seed }) in
    let r = finish (length bytes) (tail_round (drop (n_blocks * 16) bytes) s) in (r.h1, r.h2)

unfoldable pub murmur3_hash : List ℕ → ℕ → ℕ → ℕ
unfolding murmur3_sum128
murmur3_hash bytes i m =
    if m == 0 then 0 else let s = murmur3_sum128 bytes 0 in u64 (s.0 + i * s.1) % m
