-- ===== src/Codec/Decode.antt =====
-- The decoders, given what their reads return.
use bloom_filter_jyy_0098_go.Base.{
  ℕ, ◌+◌, ◌≤◌, ◌≡◌, List, length, get_or, take, slice, arith, ok, err, ◌≢◌,
}
use bloom_filter_jyy_0098_go.Std.BigEndian.{uint32}
use bloom_filter_jyy_0098_go.Std.Crc32.{checksum_ieee}
use bloom_filter_jyy_0098_go.Filter.{BloomFilter, bytes_for, new_from_parts}
use bloom_filter_jyy_0098_go.Filter.Valid.{IsValid}
use bloom_filter_jyy_0098_go.Codec.{unmarshal, magic_v2, payload_v2, crc_mismatch, unmarshal_v2}

pub bytes_for-IsValid : (f : BloomFilter) → IsValid f → bytes_for f.m ≡ length f.bits
unfolding bytes_for
bytes_for-IsValid f v = omega (arith, v.sized, v.m_fits)

pub new_from_parts_own : (f : BloomFilter) → IsValid f → new_from_parts f.m f.k f.bits ≡ ok f
unfolding new_from_parts
new_from_parts_own f v = ground (arith, v.m_pos, v.k_pos, bytes_for-IsValid f v)

-- What the reads of `unmarshalV2` return on a blob that encodes `f`.
pub record ReadsV2 (b : List ℕ) (f : BloomFilter) : Type 0 where
  pub magic : uint32 (slice b 0 4) ≡ magic_v2
  pub enough : 13 + length f.bits + 4 ≤ length b
  pub ver : get_or b 4 0 ≡ 2
  pub reads_m : uint32 (slice b 5 9) ≡ f.m
  pub reads_k : uint32 (slice b 9 13) ≡ f.k
  pub payload : take (13 + length f.bits) b ≡ payload_v2 f
  pub reads_bits : slice b 13 (13 + length f.bits) ≡ f.bits

abbrev pub stored_crc : List ℕ → BloomFilter → ℕ
stored_crc b f = uint32 (slice b (13 + length f.bits) (13 + length f.bits + 4))

-- Such a blob decodes to `f` when the stored checksum is that of its payload.
pub unmarshal-ReadsV2 :
    (b : List ℕ) (f : BloomFilter)
    → IsValid f
    → ReadsV2 b f
    → stored_crc b f ≡ checksum_ieee (payload_v2 f)
    → unmarshal b ≡ ok f
unfolding unmarshal unmarshal_v2
unmarshal-ReadsV2 b f v r crc = ground (arith, bytes_for-IsValid f v, new_from_parts_own f v)

-- A checksum that differs is refused.
pub unmarshal-bad_crc :
    (b : List ℕ) (f : BloomFilter)
    → IsValid f
    → ReadsV2 b f
    → stored_crc b f ≢ checksum_ieee (payload_v2 f)
    → unmarshal b ≡ err crc_mismatch
unfolding unmarshal unmarshal_v2
unmarshal-bad_crc b f v r crc = ground (arith, bytes_for-IsValid f v)
