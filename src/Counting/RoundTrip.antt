-- ===== src/Counting/RoundTrip.antt =====
-- `UnmarshalSnapshot` on what `MarshalSnapshot` of snapshot.go wrote.
use bloom_filter_jyy_0098_go.Base.{
  ℕ, ◌+◌, ◌-◌, ◌^◌, ◌<◌, ◌≡◌, refl, List, ◌++◌, length, slice, arith, ok, some, u32, length-append,
  take-append, drop-append, All, IsByte, All-append, append_assoc,
}
use bloom_filter_jyy_0098_go.Std.BigEndian.{
  uint32, put_uint32, uint32-put_uint32, length-put_uint32,
}
use bloom_filter_jyy_0098_go.Std.Crc32.{checksum_ieee, checksum_ieee-lt}
use bloom_filter_jyy_0098_go.Counting.{CountingFilter}
use bloom_filter_jyy_0098_go.Counting.Positions.{IsCounting}
use bloom_filter_jyy_0098_go.Counting.Snapshot.{
  snapshot_payload, marshal_snapshot, unmarshal_snapshot, sign_extend, snapshot_magic,
}

-- The numbers of a filter fit the fields of a snapshot, and the count is not negative.
pub record FitsSnapshot (f : CountingFilter) : Type 0 where
  pub m_32 : f.m < 2 ^ 32
  pub k_32 : f.k < 2 ^ 32
  pub count_31 : f.count < 2 ^ 31

module _ (f : CountingFilter) (v : IsCounting f) (fits : FitsSnapshot f) where
  length-payload : length (snapshot_payload f) ≡ 20 + length f.bytes
  unfolding snapshot_payload put_uint32
  length-payload = omega arith

  payload-IsByte : All IsByte (snapshot_payload f)
  unfolding snapshot_payload put_uint32
  payload-IsByte =
      All-append IsByte
        (put_uint32 snapshot_magic
          ++ (put_uint32 (u32 f.m)
              ++ (put_uint32 (u32 f.k)
                  ++ (put_uint32 (u32 f.counter_bits) ++ put_uint32 (u32 f.count)))))
        f.bytes (omega arith) v.all_bytes

  module _ (rest : List ℕ) where
    b : List ℕ
    unfolding snapshot_payload
    b = snapshot_payload f ++ rest

    reads_magic : uint32 (slice b 0 4) ≡ snapshot_magic
    unfolding b put_uint32 uint32
    reads_magic = refl

    reads_m : uint32 (slice b 4 8) ≡ f.m
    unfolding b put_uint32 uint32
    reads_m = omega (arith, fits.m_32)

    reads_k : uint32 (slice b 8 12) ≡ f.k
    unfolding b put_uint32 uint32
    reads_k = omega (arith, fits.k_32)

    reads_counter_bits : uint32 (slice b 12 16) ≡ f.counter_bits
    unfolding b put_uint32 uint32
    reads_counter_bits = omega (arith, v.counter_few)

    reads_count : sign_extend (uint32 (slice b 16 20)) ≡ f.count
    unfolding b put_uint32 uint32 sign_extend
    reads_count = ground (arith, fits.count_31)

    reads_bytes : slice b 20 (20 + length f.bytes) ≡ f.bytes
    unfolding b put_uint32
    reads_bytes =
        let width : 20 + length f.bytes - 20 ≡ length f.bytes = omega arith in
        rw width (take-append (length f.bytes) f.bytes rest refl)

  -- `UnmarshalSnapshot` of the snapshot of a valid filter whose m and k fit 32 bits and whose count
  -- is below 2^31 gives the filter back, whatever bytes follow the snapshot.
  pub unmarshal-marshal_snapshot :
      (rest : List ℕ)
      → (out : List ℕ) × (marshal_snapshot (some f) ≡ ok out)
        × (unmarshal_snapshot (out ++ rest) ≡ ok f)
  unfolding marshal_snapshot unmarshal_snapshot b
  unmarshal-marshal_snapshot rest =
      let crc = checksum_ieee (snapshot_payload f) in
      let tail = put_uint32 crc ++ rest in
      (
        snapshot_payload f ++ put_uint32 crc,
        refl,
        ground (
          arith,
          append_assoc (snapshot_payload f) (put_uint32 crc) rest,
          reads_magic tail,
          reads_m tail,
          reads_k tail,
          reads_counter_bits tail,
          reads_count tail,
          reads_bytes tail,
          v.sized,
          v.max_is,
          length-payload,
          length-append (snapshot_payload f) tail,
          length-append (put_uint32 crc) rest,
          length-put_uint32 crc,
          take-append (20 + length f.bytes) (snapshot_payload f) tail,
          drop-append (20 + length f.bytes) (snapshot_payload f) tail,
          uint32-put_uint32 crc rest (checksum_ieee-lt (snapshot_payload f) payload-IsByte),
        ),
      )
