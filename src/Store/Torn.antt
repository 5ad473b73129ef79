-- ===== src/Store/Torn.antt =====
-- `parseRecord` on a record that was cut off by a crash.
use bloom_filter_jyy_0098_go.Base.{
  ℕ, ◌<◌, ◌≡◌, List, [], length, take, arith, none, length-take, slice-take, get_or-take,
}
use mathlib.Core.List.{append-nil}
use bloom_filter_jyy_0098_go.Store.{encode_record, parse_record}
use bloom_filter_jyy_0098_go.Store.Records.{
  IsRecord, reads_type, reads_length, length-encode_record,
}

-- No proper prefix of a record parses.
pub parse-torn :
    {typ : ℕ} {payload : List ℕ} (r : IsRecord typ payload) (n : ℕ)
    → n < length (encode_record typ payload)
    → parse_record (take n (encode_record typ payload)) ≡ none
unfolding parse_record
parse-torn {typ} {payload} r n h =
    let b = encode_record typ payload in
    ground (
      arith,
      append-nil b,
      reads_type r [],
      reads_length r [],
      length-encode_record typ payload,
      length-take n b,
      get_or-take n 0 b 0,
      slice-take n 1 5 b,
    )
