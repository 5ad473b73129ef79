-- ===== src/Codec/Tests.antt =====
-- The theorems on the wire formats at a concrete filter.
use bloom_filter_jyy_0098_go.Base.{
  ℕ, ◌≡◌, ◌≢◌, refl, List, [], ◌∷◌, ◌++◌, arith, ok, err, some, take,
}
use bloom_filter_jyy_0098_go.Filter.{BloomFilter}
use bloom_filter_jyy_0098_go.Filter.Valid.{IsValid}
use bloom_filter_jyy_0098_go.Std.BigEndian.{put_uint32}
use bloom_filter_jyy_0098_go.Std.Crc32.{checksum_ieee}
use bloom_filter_jyy_0098_go.Codec.{
  unmarshal, marshal, marshal_v1, payload_v2, crc_mismatch, bits_truncated,
}
use bloom_filter_jyy_0098_go.Base.{All-append, All, IsByte, ◌+◌}
use bloom_filter_jyy_0098_go.Store.Log.{marshal-IsByte}
use bloom_filter_jyy_0098_go.Filter.{bytes_for}
use bloom_filter_jyy_0098_go.Std.BigEndian.{uint32}
use bloom_filter_jyy_0098_go.Codec.{magic_v2}
use bloom_filter_jyy_0098_go.Codec.Canonical.{marshal-unmarshal}
use bloom_filter_jyy_0098_go.Codec.RoundTrip.{FitsFormat, unmarshal-marshal, unmarshal-marshal_v1}
use bloom_filter_jyy_0098_go.Codec.Damage.{unmarshal-wrong_crc, unmarshal-cut, length-marshal}
use bloom_filter_jyy_0098_go.Codec.Formats.{unmarshal-IsValid}

abbrev sample : BloomFilter
sample = record { m = 12; k = 3; bits = 0x81 ∷ 0x04 ∷ [] }

sample-IsValid : IsValid sample
sample-IsValid = record {
  m_pos = omega arith;
  m_fits = omega arith;
  k_pos = omega arith;
  k_fits = omega arith;
  sized = omega arith;
  bytes = omega arith;
}

sample-FitsFormat : FitsFormat sample
sample-FitsFormat = record { m_32 = omega arith; k_32 = omega arith }

unmarshal-marshal_example : unmarshal (marshal (some sample) ++ 7 ∷ []) ≡ ok sample
unmarshal-marshal_example = unmarshal-marshal sample (7 ∷ []) sample-IsValid sample-FitsFormat

abbrev v1_blob : List ℕ
v1_blob = 0x42 ∷ 0x4c ∷ 0x4d ∷ 1 ∷ 0 ∷ 0 ∷ 0 ∷ 12 ∷ 0 ∷ 0 ∷ 0 ∷ 3 ∷ 0x81 ∷ 0x04 ∷ []

v1_bytes : marshal_v1 (some sample) ≡ v1_blob
unfolding marshal_v1
v1_bytes = refl

v1_decodes : unmarshal v1_blob ≡ ok sample
v1_decodes = unfold marshal_v1 in unmarshal-marshal_v1 sample sample-IsValid sample-FitsFormat

five-wrong_crc : 5 ≢ checksum_ieee (payload_v2 sample)
unfolding checksum_ieee payload_v2
five-wrong_crc = omega arith

unmarshal-wrong_crc_example :
    unmarshal (payload_v2 sample ++ (put_uint32 5 ++ [])) ≡ err crc_mismatch
unmarshal-wrong_crc_example =
    unmarshal-wrong_crc sample 5 [] sample-IsValid sample-FitsFormat (omega arith) five-wrong_crc

unmarshal-cut_example : unmarshal (take 18 (marshal (some sample))) ≡ err bits_truncated
unmarshal-cut_example =
    unmarshal-cut sample 18 sample-IsValid sample-FitsFormat (omega (arith, length-marshal sample))

unmarshal-IsValid_example : IsValid sample × FitsFormat sample
unmarshal-IsValid_example = unmarshal-IsValid v1_blob (omega arith) v1_decodes

abbrev trailed : List ℕ
trailed = marshal (some sample) ++ 7 ∷ []

trailed-IsByte : All IsByte trailed
trailed-IsByte =
    All-append IsByte (marshal (some sample)) (7 ∷ []) (marshal-IsByte sample sample-IsValid)
      (omega arith)

trailed-magic : uint32 (take 4 trailed) ≡ magic_v2
unfolding marshal uint32
trailed-magic = refl

marshal-unmarshal_example : marshal (some sample) ≡ take (13 + bytes_for 12 + 4) trailed
marshal-unmarshal_example =
    marshal-unmarshal trailed sample trailed-IsByte trailed-magic
      (unmarshal-marshal sample (7 ∷ []) sample-IsValid sample-FitsFormat)
