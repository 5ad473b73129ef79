-- ===== src/Wal.antt =====
-- internal/store/wal.go: the buffered log with sequence numbers. Opening, reading, writing and
-- syncing the file succeed; a file is the list of its bytes, and a write appends to it.
pub mod Entries
pub mod Session
pub mod Cut
mod Tests
use bloom_filter_jyy_0098_go.Base.{
  ℕ, zero, suc, ◌+◌, ◌-◌, Option, none, some, List, [], ◌∷◌, ◌++◌, length, get_or, take, drop,
  slice, u32, u64, ltb, leb, not, ◌==◌, if◌then◌else◌,
}
use bloom_filter_jyy_0098_go.Std.BigEndian.{put_uint32, uint32, put_uint64, uint64}
use bloom_filter_jyy_0098_go.Std.Crc32.{checksum_ieee}

abbrev pub entry_header : ℕ
entry_header = 13

abbrev pub entry_crc : ℕ
entry_crc = 4

pub record WalEntry : Type 0 where
  pub seq : ℕ
  pub typ : ℕ
  pub payload : List ℕ

-- `capacity` is `cap(w.buf)`, which stays at the configured size, since a flush that succeeds
-- empties the buffer before it outgrows that.
pub record Wal : Type 0 where
  pub file : List ℕ
  pub seq : ℕ
  pub buf : List WalEntry
  pub capacity : ℕ
  pub flushed : ℕ

-- All of an entry before its checksum.
unfoldable pub entry_head : WalEntry → List ℕ
unfolding put_uint64 put_uint32
entry_head e = put_uint64 e.seq ++ (e.typ ∷ put_uint32 (u32 (length e.payload)) ++ e.payload)

unfoldable pub encode_entry : WalEntry → List ℕ
unfolding entry_head
encode_entry e = entry_head e ++ put_uint32 (checksum_ieee (entry_head e))

-- A decoded entry, and the bytes that it takes.
pub record Decoded : Type 0 where
  pub entry : WalEntry
  pub size : ℕ

unfoldable pub decode_entry : List ℕ → Option Decoded
decode_entry bytes =
    if ltb (length bytes) (entry_header + entry_crc)
    then none
    else let seq = uint64 (slice bytes 0 8) in
      let typ = get_or bytes 8 0 in
      let p_len = uint32 (slice bytes 9 13) in
      let total = entry_header + p_len + entry_crc in
      if ltb (length bytes) total
      then none
      else let stored = uint32 (slice bytes (total - entry_crc) total) in
        let computed = checksum_ieee (take (entry_header + p_len) bytes) in
        if not (stored == computed)
        then none
        else some (record {
          entry = record { seq = seq; typ = typ; payload = slice bytes 13 (13 + p_len) };
          size = total;
        })

-- The loop of `ReadAll` from an offset on. An entry takes at least seventeen bytes, so the length
-- of the file is enough fuel.
read_loop : ℕ → List ℕ → ℕ → List WalEntry
read_loop zero bytes pos = []
read_loop (suc fuel) bytes pos = elim (decode_entry (drop pos bytes)) [
  | none ↦ []
  | some d ↦ d.entry ∷ read_loop fuel bytes (pos + d.size)
]

unfoldable pub read_all : List ℕ → List WalEntry
unfolding read_loop
read_all bytes = read_loop (length bytes) bytes 0

-- The loop of `replaySeq`, with the same fuel.
seq_loop : ℕ → List ℕ → ℕ → ℕ → ℕ
seq_loop zero bytes pos max_seq = max_seq
seq_loop (suc fuel) bytes pos max_seq = elim (decode_entry (drop pos bytes)) [
  | none ↦ max_seq
  | some d ↦
      seq_loop fuel bytes (pos + d.size) (if ltb max_seq d.entry.seq then d.entry.seq else max_seq)
]

unfoldable pub replay_seq : List ℕ → ℕ
unfolding seq_loop
replay_seq bytes = seq_loop (length bytes) bytes 0 0

-- `OpenWAL` on a file that holds `bytes`; a size of 0 stands for any that is not positive.
unfoldable pub open_wal : List ℕ → ℕ → Wal
unfolding replay_seq
open_wal bytes buffer_size = record {
  file = bytes;
  seq = replay_seq bytes;
  buf = [];
  capacity = if buffer_size == 0 then 32 else buffer_size;
  flushed = 0;
}

-- What `flushLocked` writes for the entries of the buffer.
abbrev pub encode_all : List WalEntry → List ℕ
encode_all [] = []
encode_all (e ∷ es) = encode_entry e ++ encode_all es

unfoldable pub flush : Wal → Wal
flush w = record w { file = w.file ++ encode_all w.buf; buf = []; flushed = w.seq }

unfoldable pub append : Wal → ℕ → List ℕ → Wal
unfolding flush
append w typ payload =
    let seq = u64 (w.seq + 1) in
    let entry : WalEntry = record { seq = seq; typ = typ; payload = payload } in
    let w' : Wal = record w { seq = seq; buf = w.buf ++ entry ∷ [] } in
    if leb w.capacity (length w'.buf) then flush w' else w'

-- `Close` flushes, then closes the file.
unfoldable pub close : Wal → Wal
unfolding flush
close w = flush w

-- `DefaultWALConfig`, and the accessors.
abbrev pub default_buffer_size : ℕ
default_buffer_size = 32

unfoldable pub current_seq : Wal → ℕ
current_seq w = w.seq

unfoldable pub flushed_seq : Wal → ℕ
flushed_seq w = w.flushed

unfoldable pub pending : Wal → ℕ
pending w = length w.buf
