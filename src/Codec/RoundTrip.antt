-- ===== src/Codec/RoundTrip.antt =====
-- The decoder of codec.go on what its encoders wrote.
use bloom_filter_jyy_0098_go.Base.{
  ◌∷◌, ℕ, ◌+◌, ◌-◌, ◌^◌, ◌<◌, ◌≤◌, ◌≡◌, refl, ap, sym, ◌∙◌, List, ◌++◌, length, arith, ok, some,
  u32, length-append, take-append, drop-append, All, IsByte, All-append, [],
}
use mathlib.Core.List.{append_assoc, append-nil}
use bloom_filter_jyy_0098_go.Std.BigEndian.{
  uint32, put_uint32, uint32-put_uint32, length-put_uint32,
}
use bloom_filter_jyy_0098_go.Std.Crc32.{checksum_ieee, checksum_ieee-lt}
use bloom_filter_jyy_0098_go.Filter.{BloomFilter}
use bloom_filter_jyy_0098_go.Filter.Valid.{IsValid}
use bloom_filter_jyy_0098_go.Codec.{
  unmarshal, magic_v1, magic_v2, payload_v2, marshal, marshal_v1, unmarshal_v1,
}
use bloom_filter_jyy_0098_go.Codec.Decode.{
  ReadsV2, stored_crc, unmarshal-ReadsV2, bytes_for-IsValid, new_from_parts_own,
}

-- The parameters fit the 32 bits that the formats give them.
pub record FitsFormat (f : BloomFilter) : Type 0 where
  pub m_32 : f.m < 2 ^ 32
  pub k_32 : f.k < 2 ^ 32

pub length-payload_v2 : (f : BloomFilter) → length (payload_v2 f) ≡ 13 + length f.bits
unfolding payload_v2
length-payload_v2 f = omega arith

pub payload_v2-IsByte : (f : BloomFilter) → IsValid f → All IsByte (payload_v2 f)
unfolding payload_v2
payload_v2-IsByte f v =
    All-append IsByte (put_uint32 magic_v2 ++ (2 ∷ put_uint32 (u32 f.m) ++ put_uint32 (u32 f.k)))
      f.bits (omega arith) v.bytes

module _ (f : BloomFilter) (fits : FitsFormat f) (rest : List ℕ) where
  -- The reads of the decoder on a payload, whatever follows it.
  pub payload-ReadsV2 : 4 ≤ length rest → ReadsV2 (payload_v2 f ++ rest) f
  unfolding payload_v2 uint32
  payload-ReadsV2 h = record {
    magic = refl;
    enough = omega (arith, length-append f.bits rest);
    ver = refl;
    reads_m = omega (arith, fits.m_32);
    reads_k = omega (arith, fits.k_32);
    payload = take-append (13 + length f.bits) (payload_v2 f) rest (omega arith);
    reads_bits =
        let width : 13 + length f.bits - 13 ≡ length f.bits = omega arith in
        rw width (take-append (length f.bits) f.bits rest refl);
  }

-- The checksum that the decoder reads is the one that was written behind the payload.
pub stored_crc-payload :
    (f : BloomFilter) (crc : ℕ) (rest : List ℕ)
    → crc < 2 ^ 32
    → stored_crc (payload_v2 f ++ (put_uint32 crc ++ rest)) f ≡ crc
stored_crc-payload f crc rest h =
    let width : 13 + length f.bits + 4 - (13 + length f.bits) ≡ 4 = omega arith in
    rw
      (
        width,
        drop-append (13 + length f.bits) (payload_v2 f) (put_uint32 crc ++ rest)
            (sym (length-payload_v2 f)),
        take-append 4 (put_uint32 crc) rest (sym (length-put_uint32 crc)),
      )
      (uint32-own crc h)
  where
    uint32-own : (v : ℕ) → v < 2 ^ 32 → uint32 (put_uint32 v) ≡ v
    uint32-own v p = ap uint32 (sym (append-nil (put_uint32 v))) ∙ uint32-put_uint32 v [] p

-- Decoding the v2 encoding of a valid filter whose parameters fit 32 bits gives the filter back,
-- whatever bytes follow the encoding.
pub unmarshal-marshal :
    (f : BloomFilter) (rest : List ℕ)
    → IsValid f
    → FitsFormat f
    → unmarshal (marshal (some f) ++ rest) ≡ ok f
unfolding marshal
unmarshal-marshal f rest v fits =
    let crc = checksum_ieee (payload_v2 f) in
    let small = checksum_ieee-lt (payload_v2 f) (payload_v2-IsByte f v) in
    rw (append_assoc (payload_v2 f) (put_uint32 crc) rest) (
      unmarshal-ReadsV2 (payload_v2 f ++ (put_uint32 crc ++ rest)) f v
        (payload-ReadsV2 f fits (put_uint32 crc ++ rest)
          (omega (arith, length-append (put_uint32 crc) rest, length-put_uint32 crc)))
        (stored_crc-payload f crc rest small))

-- Decoding the v1 encoding of a valid filter whose parameters fit 32 bits gives the filter back.
pub unmarshal-marshal_v1 :
    (f : BloomFilter) → IsValid f → FitsFormat f → unmarshal (marshal_v1 (some f)) ≡ ok f
unfolding unmarshal unmarshal_v1 marshal_v1
unmarshal-marshal_v1 f v fits = ground (
  arith,
  uint32-put_uint32 (u32 f.m) [],
  uint32-put_uint32 (u32 f.k) [],
  uint32-put_uint32 magic_v1 [],
  bytes_for-IsValid f v,
  new_from_parts_own f v,
  fits.m_32,
  fits.k_32,
)
