-- ===== src/Counting/Snapshot.antt =====
-- internal/counting/snapshot.go: merging, the binary snapshot, and counts over all positions.
use bloom_filter_jyy_0098_go.Base.{
  ℕ, zero, suc, ◌+◌, ◌-◌, ◌^◌, not, ◌||◌, Option, none, some, List, ◌++◌, length, take, drop, slice,
  u32, u64, ltb, ◌==◌, if◌then◌else◌, Result, ok, err,
}
use bloom_filter_jyy_0098_go.Std.BigEndian.{put_uint32, uint32}
use bloom_filter_jyy_0098_go.Std.Crc32.{checksum_ieee}
use bloom_filter_jyy_0098_go.Float.{Floats}
use bloom_filter_jyy_0098_go.Counting.{
  CountingFilter, CountingError, nil_filter, param_mismatch, snapshot_too_short, snapshot_bad_magic,
  snapshot_crc, snapshot_data_len, data_len, max_of, get_counter, set_counter,
}

-- The loop of `Merge` from position i on, with `left` positions to go.
unfoldable pub merge_loop : CountingFilter → ℕ → ℕ → CountingFilter → CountingFilter
unfolding get_counter set_counter
merge_loop other zero i f = f
merge_loop other (suc left) i f =
    let sum = get_counter f i + get_counter other i in
    merge_loop other left (i + 1)
      (set_counter f i (if ltb f.max_count sum then f.max_count else sum))

unfoldable pub merge : CountingFilter → Option CountingFilter → Result CountingError CountingFilter
unfolding merge_loop
merge f none = err nil_filter
merge f (some other) =
    if not (f.m == other.m) || not (f.k == other.k) || not (f.counter_bits == other.counter_bits)
    then err param_mismatch
    else let f' = merge_loop other f.m 0 f in
      ok (record f' { count = u64 (f'.count + other.count) })

abbrev pub snapshot_magic : ℕ
snapshot_magic = 0x43424631

abbrev pub snapshot_header : ℕ
snapshot_header = 20

abbrev pub snapshot_crc_size : ℕ
snapshot_crc_size = 4

-- All of a snapshot before its checksum.
unfoldable pub snapshot_payload : CountingFilter → List ℕ
unfolding put_uint32
snapshot_payload f =
    put_uint32 snapshot_magic
    ++ (put_uint32 (u32 f.m)
        ++ (put_uint32 (u32 f.k)
            ++ (put_uint32 (u32 f.counter_bits) ++ (put_uint32 (u32 f.count) ++ f.bytes))))

unfoldable pub marshal_snapshot : Option CountingFilter → Result CountingError (List ℕ)
unfolding snapshot_payload
marshal_snapshot none = err nil_filter
marshal_snapshot (some f) =
    ok (snapshot_payload f ++ put_uint32 (checksum_ieee (snapshot_payload f)))

-- `int(int32(v))`: the sign bit of 32 bits fills the upper half.
unfoldable pub sign_extend : ℕ → ℕ
sign_extend v = if ltb v (2 ^ 31) then v else v + (2 ^ 64 - 2 ^ 32)

unfoldable pub unmarshal_snapshot : List ℕ → Result CountingError CountingFilter
unfolding data_len sign_extend max_of
unmarshal_snapshot b =
    if ltb (length b) (snapshot_header + snapshot_crc_size)
    then err snapshot_too_short
    else if not (uint32 (slice b 0 4) == snapshot_magic)
    then err snapshot_bad_magic
    else let m = uint32 (slice b 4 8) in
      let k = uint32 (slice b 8 12) in
      let counter_bits = uint32 (slice b 12 16) in
      let count = sign_extend (uint32 (slice b 16 20)) in
      let expected = data_len m counter_bits in
      if ltb (length b) (snapshot_header + expected + snapshot_crc_size)
      then err snapshot_data_len
      else let payload = take (snapshot_header + expected) b in
        let stored = uint32 (drop (snapshot_header + expected) b) in
        let computed = checksum_ieee payload in
        if not (stored == computed)
        then err snapshot_crc
        else ok (record {
          m = m;
          k = k;
          counter_bits = counter_bits;
          max_count = max_of counter_bits;
          bytes = slice b snapshot_header (snapshot_header + expected);
          count = count;
        })

-- The loop of `NonZeroCount`, with `left` positions to go.
non_zero_loop : CountingFilter → ℕ → ℕ → ℕ → ℕ
unfolding get_counter
non_zero_loop f zero i n = n
non_zero_loop f (suc left) i n =
    non_zero_loop f left (i + 1) (if ltb 0 (get_counter f i) then n + 1 else n)

unfoldable pub non_zero_count : CountingFilter → ℕ
unfolding non_zero_loop
non_zero_count f = non_zero_loop f f.m 0 0

-- The loop of `MaxObservedCount`.
max_loop : CountingFilter → ℕ → ℕ → ℕ → ℕ
unfolding get_counter
max_loop f zero i top = top
max_loop f (suc left) i top =
    let v = get_counter f i in max_loop f left (i + 1) (if ltb top v then v else top)

unfoldable pub max_observed_count : CountingFilter → ℕ
unfolding max_loop
max_observed_count f = max_loop f f.m 0 0

-- `Saturation` of counting.go, whose loop is the one of `NonZeroCount`.
unfoldable pub saturation : (fl : Floats) → CountingFilter → fl.F
saturation fl f = fl.div (fl.of_int (non_zero_count f)) (fl.of_uint f.m)
