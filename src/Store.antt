-- ===== src/Store.antt =====
-- internal/store/store.go: the append-only file of a filter, with checkpoints and replay. A file
-- is the list of its bytes; opening, reading, seeking and truncating it succeed, and a write
-- appends, since the handle stands at the end after `Create` and after `Open`.
pub mod Records
pub mod Torn
pub mod Log
pub mod Scan
pub mod Recovery
pub mod Session
pub mod Cut
pub mod Parse
pub mod Chain
pub mod Reopen
pub mod Sound
pub mod Written
pub mod Holds
pub mod Crashes
mod Tests
use bloom_filter_jyy_0098_go.Base.{
  ℕ, zero, suc, ◌+◌, Bool, true, false, not, ◌&&◌, Option, none, some, List, [], ◌∷◌, ◌++◌, length,
  get_or, take, drop, slice, u32, ltb, ◌==◌, if◌then◌else◌, Result, ok, err, panic, ◌>>=◌, map_err,
}
use bloom_filter_jyy_0098_go.Std.BigEndian.{put_uint32, uint32}
use bloom_filter_jyy_0098_go.Std.Crc32.{checksum_ieee}
use bloom_filter_jyy_0098_go.Filter
use bloom_filter_jyy_0098_go.Filter.{BloomFilter, FilterError}
use bloom_filter_jyy_0098_go.Codec.{marshal, unmarshal}

abbrev pub file_magic : ℕ
file_magic = 0x424C5301

abbrev pub header_size : ℕ
header_size = 8

abbrev pub rec_add : ℕ
rec_add = 1

abbrev pub rec_checkpoint : ℕ
rec_checkpoint = 2

abbrev pub rec_header_size : ℕ
rec_header_size = 5

abbrev pub rec_crc_size : ℕ
rec_crc_size = 4

-- `from_filter` is an error of `filter.New`; `file_closed` that of a write to a closed file.
pub data StoreError : Type 0 where
  not_store corrupt_header file_closed : StoreError
  from_filter : FilterError → StoreError

-- `file` is what the file holds, and `is_open` says that the handle is not nil. The filter is
-- `none` where the pointer is nil.
pub record Store : Type 0 where
  pub file : List ℕ
  pub is_open : Bool
  pub filter : Option BloomFilter
  pub k : ℕ

-- All of a record before its checksum.
unfoldable pub record_head : ℕ → List ℕ → List ℕ
unfolding put_uint32
record_head typ payload = typ ∷ put_uint32 (u32 (length payload)) ++ payload

unfoldable pub encode_record : ℕ → List ℕ → List ℕ
unfolding record_head
encode_record typ payload =
    record_head typ payload ++ put_uint32 (checksum_ieee (record_head typ payload))

-- A parsed record, and the bytes that it takes.
pub record Parsed : Type 0 where
  pub typ : ℕ
  pub payload : List ℕ
  pub size : ℕ

unfoldable pub parse_record : List ℕ → Option Parsed
parse_record bytes =
    if ltb (length bytes) rec_header_size
    then none
    else let typ = get_or bytes 0 0 in
      if not (typ == rec_add) && not (typ == rec_checkpoint)
      then none
      else let p_len = uint32 (slice bytes 1 5) in
        let total = rec_header_size + p_len + rec_crc_size in
        if ltb (length bytes) total
        then none
        else let stored = uint32 (slice bytes (rec_header_size + p_len) total) in
          let computed = checksum_ieee (take (rec_header_size + p_len) bytes) in
          if not (stored == computed)
          then none
          else some (record {
            typ = typ;
            payload = slice bytes rec_header_size (rec_header_size + p_len);
            size = total;
          })

unfoldable pub header : ℕ → List ℕ
unfolding put_uint32
header m = put_uint32 file_magic ++ put_uint32 (u32 m)

unfoldable pub create : ℕ → ℕ → Result StoreError Store
create m k = do
  bf ← map_err from_filter (Filter.new m k)
  ok (record { file = header m; is_open = true; filter = some bf; k = k })

-- The first pass of `Open`: the offset of the last record that is a checkpoint. A record takes at
-- least nine bytes, so the length of the file is enough fuel.
pub last_checkpoint : ℕ → List ℕ → ℕ → Option ℕ → Option ℕ
last_checkpoint zero bytes p last = last
last_checkpoint (suc fuel) bytes p last = elim (parse_record (drop p bytes)) [
  | none ↦ last
  | some r ↦
      last_checkpoint fuel bytes (p + r.size) (if r.typ == rec_checkpoint then some p else last)
]

-- The variables of the second pass: the filter, if there is one yet, its k, and the offset.
pub record Replay : Type 0 where
  pub bf : Option BloomFilter
  pub k : ℕ
  pub pos : ℕ

-- `bf, _ = filter.New(m, 7)`: the pointer is nil if `New` fails.
unfoldable pub default_filter : ℕ → Option BloomFilter
default_filter m = elim (Filter.new m 7) [ ok f ↦ some f | err e ↦ none | panic ↦ none ]

-- An Add record; `none` is the panic of `Add` on a nil filter.
replay_add : ℕ → List ℕ → Replay → Option Replay
replay_add m item s = elim s.bf [
  | some f ↦ some (record s { bf = some (Filter.add f item) })
  | none ↦ elim (default_filter m) [
    | some f ↦ some (record s { bf = some (Filter.add f item); k = 7 })
    | none ↦ none
  ]
]

-- A Checkpoint record; one that does not decode is skipped.
replay_checkpoint : List ℕ → Replay → Replay
replay_checkpoint payload s = elim (unmarshal payload) [
  | ok f ↦ record s { bf = some f; k = f.k }
  | err e ↦ s
  | panic ↦ s
]

pub replay_record : ℕ → Parsed → Replay → Option Replay
unfolding replay_add replay_checkpoint
replay_record m r s =
    if r.typ == rec_checkpoint
    then some (replay_checkpoint r.payload s)
    else replay_add m r.payload s

-- The second pass, from offset `s.pos`; the length of the file is enough fuel again.
pub replay : ℕ → List ℕ → ℕ → Replay → Option Replay
replay zero bytes m s = some s
replay (suc fuel) bytes m s = elim (parse_record (drop s.pos bytes)) [
  | none ↦ some s
  | some r ↦ elim (replay_record m r s) [
    | none ↦ none
    | some s' ↦ replay fuel bytes m (record s' { pos = s'.pos + r.size })
  ]
]

-- The store that `Open` returns: the file is truncated to the records that were replayed.
pub opened : List ℕ → ℕ → Replay → Store
opened bytes m s = elim s.bf [
  | some f ↦ record { file = take s.pos bytes; is_open = true; filter = some f; k = s.k }
  | none ↦ record { file = take s.pos bytes; is_open = true; filter = default_filter m; k = 7 }
]

-- Where the second pass starts.
pub start : Option ℕ → ℕ
start none = header_size
start (some p) = p

pub open_file : List ℕ → Result StoreError Store
open_file bytes =
    if ltb (length bytes) header_size
    then err corrupt_header
    else if not (uint32 (slice bytes 0 4) == file_magic)
    then err not_store
    else let m = uint32 (slice bytes 4 8) in
      let last = last_checkpoint (length bytes) bytes header_size none in
      let s = replay (length bytes) bytes m (record { bf = none; k = 0; pos = start last }) in
      elim s [ some s' ↦ ok (opened bytes m s') | none ↦ panic ]

-- `writeRecord`: the new store, and the error if there is one.
unfoldable pub write_record : Store → ℕ → List ℕ → Store × Option StoreError
write_record s typ payload =
    if s.is_open
    then (record s { file = s.file ++ encode_record typ payload }, none)
    else (s, some file_closed)

-- `none` is the panic of `Add` on a nil filter.
unfoldable pub add : Store → List ℕ → Option (Store × Option StoreError)
unfolding write_record
add s item = elim s.filter [
  | some f ↦ some (write_record (record s { filter = some (Filter.add f item) }) rec_add item)
  | none ↦ none
]

unfoldable pub test : Store → List ℕ → Option Bool
test s item = elim s.filter [ some f ↦ some (Filter.test f item) | none ↦ none ]

unfoldable pub checkpoint : Store → Store × Option StoreError
unfolding write_record
checkpoint s = write_record s rec_checkpoint (marshal s.filter)

unfoldable pub close : Store → Store
close s = record s { is_open = false }
