-- ===== src/Codec/Formats.antt =====
-- `Version`, `Inspect` and `ConvertV1ToV2` beside `Unmarshal`.
use bloom_filter_jyy_0098_go.Base.{
  ℕ, ◌+◌, ◌-◌, ◌^◌, ◌<◌, ◌≤◌, ◌≡◌, refl, sym, List, length, drop, slice, arith, ◌⊎◌, inl, inr, ok,
  some, All, IsByte, All-take, All-drop, length-drop, true, false,
}
use bloom_filter_jyy_0098_go.Std.BigEndian.{uint32, uint32-lt}
use bloom_filter_jyy_0098_go.Filter.{BloomFilter, new_from_parts, bytes_for}
use mathlib.Core.Path.{subst}
use bloom_filter_jyy_0098_go.Filter.Valid.{IsValid, new_from_parts_ok, new_from_parts-IsValid}
use bloom_filter_jyy_0098_go.Codec.{
  FormatInfo, unmarshal, unmarshal_v1, unmarshal_v2, marshal, marshal_v1, convert_v1_to_v2, version,
  inspect, magic_v1, magic_v2, inspect_v1, inspect_v2,
}
use bloom_filter_jyy_0098_go.Codec.RoundTrip.{FitsFormat, unmarshal-marshal_v1}

-- What `NewFromParts` accepts, from parts read as 32-bit numbers and bytes.
read_parts :
    (m k : ℕ) (bits : List ℕ) {f : BloomFilter}
    → m < 2 ^ 32
    → k < 2 ^ 32
    → All IsByte bits
    → new_from_parts m k bits ≡ ok f
    → IsValid f × FitsFormat f
read_parts m k bits hm hk hb e =
    let made = new_from_parts_ok m k bits e in
    (
      new_from_parts-IsValid m k bits (omega arith) (omega arith) hb e,
      subst FitsFormat (sym made.3) (record { m_32 = hm; k_32 = hk }),
    )

-- The parts that a blob of either version names.
parts_v1 :
    (b : List ℕ) {f : BloomFilter}
    → unmarshal_v1 b ≡ ok f
    → new_from_parts (uint32 (slice b 4 8)) (uint32 (slice b 8 12)) (drop 12 b) ≡ ok f
unfolding unmarshal_v1
parts_v1 b e = ground arith

pub parts_v2 :
    (b : List ℕ) {f : BloomFilter}
    → unmarshal_v2 b ≡ ok f
    → new_from_parts
        (uint32 (slice b 5 9))
        (uint32 (slice b 9 13))
        (slice b 13 (13 + bytes_for (uint32 (slice b 5 9))))
      ≡ ok f
unfolding unmarshal_v2
parts_v2 b e = ground arith

-- What `Unmarshal` returns came from one of the two formats.
unmarshal_cases :
    (b : List ℕ) {f : BloomFilter}
    → unmarshal b ≡ ok f
    → ((unmarshal_v1 b ≡ ok f) × (version b ≡ ok 1))
      ⊎ ((unmarshal_v2 b ≡ ok f) × (version b ≡ ok 2))
unfolding unmarshal version
unmarshal_cases b e = ground arith

slice-IsByte : (b : List ℕ) (i j : ℕ) → All IsByte b → All IsByte (slice b i j)
slice-IsByte b i j h = All-take IsByte (j - i) (drop i b) (All-drop IsByte i b h)

read-lt : (b : List ℕ) (i j : ℕ) → All IsByte b → uint32 (slice b i j) < 2 ^ 32
read-lt b i j h = uint32-lt (slice b i j) (slice-IsByte b i j h)

-- A filter that `Unmarshal` returns, from whatever bytes, is valid, and its parameters fit 32 bits.
pub unmarshal-IsValid :
    (b : List ℕ) {f : BloomFilter} → All IsByte b → unmarshal b ≡ ok f → IsValid f × FitsFormat f
unmarshal-IsValid b h e = elim (unmarshal_cases b e) [
  | inl v1 ↦
      read_parts (uint32 (slice b 4 8)) (uint32 (slice b 8 12)) (drop 12 b) (read-lt b 4 8 h)
        (read-lt b 8 12 h) (All-drop IsByte 12 b h) (parts_v1 b v1.0)
  | inr v2 ↦
      let m = uint32 (slice b 5 9) in
      read_parts m (uint32 (slice b 9 13)) (slice b 13 (13 + bytes_for m)) (read-lt b 5 9 h)
        (read-lt b 9 13 h) (slice-IsByte b 13 (13 + bytes_for m) h) (parts_v2 b v2.0)
]

-- A blob with the magic of v1 is decoded by `unmarshalV1`.
unmarshal-eq-v1 :
    (b : List ℕ) → 4 ≤ length b → uint32 (slice b 0 4) ≡ magic_v1 → unmarshal b ≡ unmarshal_v1 b
unfolding unmarshal
unmarshal-eq-v1 b h e = ground arith

-- Converting the v1 encoding of a valid filter whose parameters fit 32 bits gives its v2
-- encoding, and the v2 encoding is left as it is.
pub convert-marshal_v1 :
    (f : BloomFilter)
    → IsValid f
    → FitsFormat f
    → (convert_v1_to_v2 (marshal_v1 (some f)) ≡ ok (marshal (some f)))
      × (convert_v1_to_v2 (marshal (some f)) ≡ ok (marshal (some f)))
unfolding convert_v1_to_v2 marshal marshal_v1 uint32
convert-marshal_v1 f v fits = (
  ground (arith, unmarshal-marshal_v1 f v fits, unmarshal-eq-v1 (marshal_v1 (some f))),
  ground (arith, magic_of_v2),
)
  where
    magic_of_v1 : uint32 (slice (marshal_v1 (some f)) 0 4) ≡ magic_v1
    magic_of_v1 = refl

    magic_of_v2 : uint32 (slice (marshal (some f)) 0 4) ≡ magic_v2
    magic_of_v2 = refl

abbrev info_v1 : List ℕ → FormatInfo
info_v1 b = record {
  version = 1;
  header_size = 12;
  has_crc = false;
  m = uint32 (slice b 4 8);
  k = uint32 (slice b 8 12);
  bits_len = length b - 12;
  total_len = length b;
}

abbrev info_v2 : List ℕ → FormatInfo
info_v2 b = record {
  version = 2;
  header_size = 13;
  has_crc = true;
  m = uint32 (slice b 5 9);
  k = uint32 (slice b 9 13);
  bits_len = bytes_for (uint32 (slice b 5 9));
  total_len = length b;
}

inspect_v1_of :
    (b : List ℕ) {f : BloomFilter} → unmarshal_v1 b ≡ ok f → inspect_v1 b ≡ ok (info_v1 b)
unfolding unmarshal_v1 inspect_v1
inspect_v1_of b e = ground arith

inspect_v2_of :
    (b : List ℕ) {f : BloomFilter} → unmarshal_v2 b ≡ ok f → inspect_v2 b ≡ ok (info_v2 b)
unfolding unmarshal_v2 inspect_v2
inspect_v2_of b e = ground arith

-- `Inspect` reports, of any blob that `Unmarshal` accepts, the version, and the parameters and
-- the size of the decoded filter.
pub inspect-unmarshal :
    (b : List ℕ) {f : BloomFilter}
    → unmarshal b ≡ ok f
    → (info : FormatInfo) × (inspect b ≡ ok info)
      × (info.m ≡ f.m)
      × (info.k ≡ f.k)
      × (info.bits_len ≡ length f.bits)
      × (version b ≡ ok info.version)
unfolding unmarshal inspect version
inspect-unmarshal b {f} e = elim (unmarshal_cases b e) [
  | inl v1 ↦
      let made =
        new_from_parts_ok (uint32 (slice b 4 8)) (uint32 (slice b 8 12)) (drop 12 b)
          (parts_v1 b v1.0) in
      (
        info_v1 b,
        ground (arith, inspect_v1_of b v1.0),
        ground arith,
        ground arith,
        ground (arith, length-drop 12 b),
        v1.1,
      )
  | inr v2 ↦
      let m = uint32 (slice b 5 9) in
      let made =
        new_from_parts_ok m (uint32 (slice b 9 13)) (slice b 13 (13 + bytes_for m))
          (parts_v2 b v2.0) in
      (
        info_v2 b,
        ground (arith, inspect_v2_of b v2.0),
        ground arith,
        ground arith,
        ground arith,
        v2.1,
      )
]
