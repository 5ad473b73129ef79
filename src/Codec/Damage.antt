-- ===== src/Codec/Damage.antt =====
-- The decoder of codec.go on damaged v2 blobs.
use bloom_filter_jyy_0098_go.Base.{
  ℕ, ◌+◌, ◌^◌, ◌<◌, ◌≡◌, ◌≢◌, sym, ◌∙◌, List, ◌++◌, length, take, arith, err, some, length-append,
  length-take, slice-take, get_or-take, if◌then◌else◌, ltb,
}
use bloom_filter_jyy_0098_go.Std.BigEndian.{put_uint32, length-put_uint32}
use bloom_filter_jyy_0098_go.Std.Crc32.{checksum_ieee}
use bloom_filter_jyy_0098_go.Filter.{BloomFilter}
use bloom_filter_jyy_0098_go.Filter.Valid.{IsValid}
use bloom_filter_jyy_0098_go.Codec.{
  too_short, bits_truncated, crc_mismatch, unmarshal, payload_v2, marshal, unmarshal_v2,
}
use bloom_filter_jyy_0098_go.Codec.Decode.{ReadsV2, unmarshal-bad_crc, bytes_for-IsValid}
use bloom_filter_jyy_0098_go.Codec.RoundTrip.{
  FitsFormat, payload-ReadsV2, stored_crc-payload, length-payload_v2,
}

-- The v2 encoding of a valid filter whose parameters fit 32 bits, with any other 32-bit number in
-- place of the checksum, is refused with a CRC mismatch.
pub unmarshal-wrong_crc :
    (f : BloomFilter) (crc : ℕ) (rest : List ℕ)
    → IsValid f
    → FitsFormat f
    → crc < 2 ^ 32
    → crc ≢ checksum_ieee (payload_v2 f)
    → unmarshal (payload_v2 f ++ (put_uint32 crc ++ rest)) ≡ err crc_mismatch
unmarshal-wrong_crc f crc rest v fits small ne =
    let b = payload_v2 f ++ (put_uint32 crc ++ rest) in
    unmarshal-bad_crc b f v
      (payload-ReadsV2 f fits (put_uint32 crc ++ rest)
        (omega (arith, length-append (put_uint32 crc) rest, length-put_uint32 crc)))
      (λ e. ne (sym (stored_crc-payload f crc rest small) ∙ e))

pub length-marshal : (f : BloomFilter) → length (marshal (some f)) ≡ 13 + length f.bits + 4
unfolding marshal
length-marshal f =
    let crc = checksum_ieee (payload_v2 f) in
    omega (
      arith,
      length-append (payload_v2 f) (put_uint32 crc),
      length-payload_v2 f,
      length-put_uint32 crc,
    )

-- The fields that the decoder reads before it looks for the bits, in a cut blob.
cut_reads :
    (b : List ℕ) (f : BloomFilter) (n : ℕ)
    → IsValid f
    → ReadsV2 b f
    → n < 13 + length f.bits + 4
    → unmarshal (take n b) ≡ err (if ltb n 17 then too_short else bits_truncated)
unfolding unmarshal unmarshal_v2
cut_reads b f n v r h = ground (
  arith,
  length-take n b,
  slice-take n 0 4 b,
  slice-take n 5 9 b,
  slice-take n 9 13 b,
  get_or-take n 4 b 0,
  bytes_for-IsValid f v,
)

-- Every proper prefix of the v2 encoding of a valid filter whose parameters fit 32 bits is refused:
-- below 17 bytes as too short, else as truncated.
pub unmarshal-cut :
    (f : BloomFilter) (n : ℕ)
    → IsValid f
    → FitsFormat f
    → n < length (marshal (some f))
    → unmarshal (take n (marshal (some f))) ≡ err (if ltb n 17 then too_short else bits_truncated)
unfolding marshal
unmarshal-cut f n v fits h =
    let crc = put_uint32 (checksum_ieee (payload_v2 f)) in
    cut_reads (payload_v2 f ++ crc) f n v
      (payload-ReadsV2 f fits crc (omega (arith, length-put_uint32 (checksum_ieee (payload_v2 f)))))
      (omega (arith, length-marshal f))
