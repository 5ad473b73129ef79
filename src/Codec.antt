-- ===== src/Codec.antt =====
-- internal/codec: the v1 and v2 wire formats of a filter (codec.go) and their inspection
-- (format.go). Byte strings are lists of bytes; a `*BloomFilter` that may be nil is an `Option`,
-- and the nil slice is the empty list.
pub mod Decode
pub mod RoundTrip
pub mod Damage
pub mod Canonical
pub mod Formats
mod Tests
use bloom_filter_jyy_0098_go.Base.{
  ℕ, ◌+◌, ◌/◌, Bool, true, false, not, ◌&&◌, Option, none, some, List, [], ◌∷◌, ◌++◌, length,
  get_or, take, drop, slice, u32, u64, ltb, ◌==◌, if◌then◌else◌, Result, ok, err, panic, ◌>>=◌,
  map_err, ◌-◌,
}
use bloom_filter_jyy_0098_go.Std.BigEndian.{put_uint32, uint32}
use bloom_filter_jyy_0098_go.Std.Crc32.{checksum_ieee}
use bloom_filter_jyy_0098_go.Filter.{BloomFilter, FilterError, bytes_for, new_from_parts}

-- `filter_error` is an error that `filter.NewFromParts` returned.
pub data CodecError : Type 0 where
  too_short bad_magic unsupported_version crc_mismatch bits_truncated : CodecError
  filter_error : FilterError → CodecError

abbrev pub magic_v1 : ℕ
magic_v1 = 0x424C4D01

abbrev pub magic_v2 : ℕ
magic_v2 = 0x424C4D02

abbrev pub header_size_v1 : ℕ
header_size_v1 = 12

abbrev pub header_size_v2 : ℕ
header_size_v2 = 13

abbrev pub trailer_v2 : ℕ
trailer_v2 = 4

-- All that `Marshal` writes before the checksum.
unfoldable pub payload_v2 : BloomFilter → List ℕ
unfolding put_uint32
payload_v2 f = put_uint32 magic_v2 ++ (2 ∷ put_uint32 (u32 f.m) ++ (put_uint32 (u32 f.k) ++ f.bits))

unfoldable pub marshal : Option BloomFilter → List ℕ
unfolding payload_v2
marshal none = []
marshal (some f) = payload_v2 f ++ put_uint32 (checksum_ieee (payload_v2 f))

unfoldable pub marshal_v1 : Option BloomFilter → List ℕ
unfolding put_uint32
marshal_v1 none = []
marshal_v1 (some f) =
    put_uint32 magic_v1 ++ (put_uint32 (u32 f.m) ++ (put_uint32 (u32 f.k) ++ f.bits))

unfoldable pub unmarshal_v1 : List ℕ → Result CodecError BloomFilter
unfolding bytes_for
unmarshal_v1 b =
    if ltb (length b) header_size_v1
    then err too_short
    else let m = uint32 (slice b 4 8) in
      let k = uint32 (slice b 8 12) in
      let bits = drop header_size_v1 b in
      let need = bytes_for m in
      if not (length bits == need)
      then err bits_truncated
      else map_err filter_error (new_from_parts m k bits)

unfoldable pub unmarshal_v2 : List ℕ → Result CodecError BloomFilter
unfolding bytes_for
unmarshal_v2 b =
    if ltb (length b) (header_size_v2 + trailer_v2)
    then err too_short
    else if not (get_or b 4 0 == 2)
    then err unsupported_version
    else let m = uint32 (slice b 5 9) in
      let k = uint32 (slice b 9 13) in
      let need = bytes_for m in
      let bits_end = header_size_v2 + need in
      if ltb (length b) (bits_end + trailer_v2)
      then err bits_truncated
      else let payload = take bits_end b in
        let stored = uint32 (slice b bits_end (bits_end + trailer_v2)) in
        let computed = checksum_ieee payload in
        if not (stored == computed)
        then err crc_mismatch
        else map_err filter_error (new_from_parts m k (slice b header_size_v2 bits_end))

unfoldable pub unmarshal : List ℕ → Result CodecError BloomFilter
unmarshal b =
    if ltb (length b) 4
    then err too_short
    else let magic = uint32 (slice b 0 4) in
      if magic == magic_v1
      then unmarshal_v1 b
      else if magic == magic_v2
      then unmarshal_v2 b
      else err bad_magic

unfoldable pub version : List ℕ → Result CodecError ℕ
version b =
    if ltb (length b) 4
    then err too_short
    else let magic = uint32 (slice b 0 4) in
      if magic == magic_v1 then ok 1 else if magic == magic_v2 then ok 2 else err bad_magic

pub record FormatInfo : Type 0 where
  pub version : ℕ
  pub header_size : ℕ
  pub has_crc : Bool
  pub m : ℕ
  pub k : ℕ
  pub bits_len : ℕ
  pub total_len : ℕ

unfoldable pub inspect_v1 : List ℕ → Result CodecError FormatInfo
inspect_v1 b =
    if ltb (length b) header_size_v1
    then err too_short
    else ok (record {
      version = 1;
      header_size = header_size_v1;
      has_crc = false;
      m = uint32 (slice b 4 8);
      k = uint32 (slice b 8 12);
      bits_len = length b - header_size_v1;
      total_len = length b;
    })

unfoldable pub inspect_v2 : List ℕ → Result CodecError FormatInfo
unfolding bytes_for
inspect_v2 b =
    if ltb (length b) (header_size_v2 + trailer_v2)
    then err too_short
    else ok (record {
      version = 2;
      header_size = header_size_v2;
      has_crc = true;
      m = uint32 (slice b 5 9);
      k = uint32 (slice b 9 13);
      bits_len = bytes_for (uint32 (slice b 5 9));
      total_len = length b;
    })

unfoldable pub inspect : List ℕ → Result CodecError FormatInfo
inspect b =
    if ltb (length b) 4
    then err too_short
    else let magic = uint32 (slice b 0 4) in
      if magic == magic_v1
      then inspect_v1 b
      else if magic == magic_v2
      then inspect_v2 b
      else err bad_magic

-- The error that `Validate` returns, or `none` for nil.
unfoldable pub validate : List ℕ → Option CodecError
validate b = elim (unmarshal b) [ ok f ↦ none | err e ↦ some e | panic ↦ none ]

unfoldable pub convert_v1_to_v2 : List ℕ → Result CodecError (List ℕ)
convert_v1_to_v2 b =
    if ltb (length b) 4
    then err too_short
    else let magic = uint32 (slice b 0 4) in
      if magic == magic_v2
      then ok b
      else if not (magic == magic_v1)
      then err bad_magic
      else do f ← unmarshal_v1 b; ok (marshal (some f))
