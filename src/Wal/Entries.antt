-- ===== src/Wal/Entries.antt =====
-- The entry format of wal.go: `decodeWALEntry` on what `encodeWALEntry` wrote, and `ReadAll`.
use bloom_filter_jyy_0098_go.Base.{
  ℕ, zero, suc, ◌+◌, ◌-◌, ◌^◌, ◌<◌, ◌≤◌, ◌≡◌, refl, ap, sym, ◌∙◌, List, [], ◌∷◌, ◌++◌, length,
  get_or, slice, take, drop, arith, some, none, u32, length-append, take-append, drop-append,
  drop-add, All, IsByte, All-append, append_assoc, append-nil, length-take, slice-take, ◌/◌,
}
use bloom_filter_jyy_0098_go.Std.BigEndian.{
  uint32, put_uint32, put_uint64, uint64, uint32-put_uint32, length-put_uint32, put_uint32-IsByte,
}
use bloom_filter_jyy_0098_go.Std.Crc32.{checksum_ieee, checksum_ieee-lt}
use bloom_filter_jyy_0098_go.Wal.{
  WalEntry, entry_head, encode_entry, decode_entry, read_loop, read_all, encode_all,
}

-- An entry that the format can hold.
pub record IsWalEntry (e : WalEntry) : Type 0 where
  pub seq_fits : e.seq < 2 ^ 64
  pub typ_byte : IsByte e.typ
  pub fits : length e.payload < 2 ^ 32
  pub bytes : All IsByte e.payload

length-entry_head : (e : WalEntry) → length (entry_head e) ≡ 13 + length e.payload
unfolding entry_head put_uint64 put_uint32
length-entry_head e = omega arith

pub length-encode_entry : (e : WalEntry) → length (encode_entry e) ≡ 13 + length e.payload + 4
unfolding encode_entry
length-encode_entry e =
    let crc = checksum_ieee (entry_head e) in
    omega (
      arith,
      length-append (entry_head e) (put_uint32 crc),
      length-entry_head e,
      length-put_uint32 crc,
    )

module _ (e : WalEntry) (v : IsWalEntry e) where
  entry_head-IsByte : All IsByte (entry_head e)
  unfolding entry_head put_uint64
  entry_head-IsByte =
      All-append IsByte (put_uint32 (e.seq / 2 ^ 32) ++ put_uint32 e.seq)
        (e.typ ∷ put_uint32 (u32 (length e.payload)) ++ e.payload)
        (All-append IsByte (put_uint32 (e.seq / 2 ^ 32)) (put_uint32 e.seq) (put_uint32-IsByte _)
          (put_uint32-IsByte _))
        (
          v.typ_byte,
          All-append IsByte (put_uint32 (u32 (length e.payload))) e.payload (put_uint32-IsByte _)
              v.bytes,
        )

  -- The fields that are read at the front of an entry.
  reads_seq : (rest : List ℕ) → uint64 (slice (encode_entry e ++ rest) 0 8) ≡ e.seq
  unfolding encode_entry entry_head uint64 put_uint64 put_uint32
  reads_seq rest = omega (arith, v.seq_fits)

  reads_typ : (rest : List ℕ) → get_or (encode_entry e ++ rest) 8 0 ≡ e.typ
  unfolding encode_entry entry_head put_uint64 put_uint32
  reads_typ rest = refl

  reads_length : (rest : List ℕ) → uint32 (slice (encode_entry e ++ rest) 9 13) ≡ length e.payload
  unfolding encode_entry entry_head put_uint64 put_uint32 uint32
  reads_length rest = omega (arith, v.fits)

  reads_payload :
      (rest : List ℕ) → slice (entry_head e ++ rest) 13 (13 + length e.payload) ≡ e.payload
  unfolding entry_head put_uint64 put_uint32
  reads_payload rest =
      let width : 13 + length e.payload - 13 ≡ length e.payload = omega arith in
      rw width (take-append (length e.payload) e.payload rest refl)

  -- The checksum behind the head is the one that was written.
  stored_crc :
      (crc : ℕ) (rest : List ℕ)
      → crc < 2 ^ 32
      → uint32 (
          slice
            (entry_head e ++ (put_uint32 crc ++ rest))
            (13 + length e.payload + 4 - 4)
            (13 + length e.payload + 4))
        ≡ crc
  stored_crc crc rest h =
      let from : 13 + length e.payload + 4 - 4 ≡ 13 + length e.payload = omega arith in
      let width : 13 + length e.payload + 4 - (13 + length e.payload) ≡ 4 = omega arith in
      rw
        (
          from,
          width,
          drop-append (13 + length e.payload) (entry_head e) (put_uint32 crc ++ rest)
              (sym (length-entry_head e)),
          take-append 4 (put_uint32 crc) rest (sym (length-put_uint32 crc)),
        )
        (ap uint32 (sym (append-nil (put_uint32 crc))) ∙ uint32-put_uint32 crc [] h)

  -- An entry that was written decodes back, whatever follows it.
  pub decode-encode :
      (rest : List ℕ)
      → decode_entry (encode_entry e ++ rest)
        ≡ some (record { entry = e; size = 13 + length e.payload + 4 })
  unfolding decode_entry
  decode-encode rest =
      let head = entry_head e in
      let crc = checksum_ieee head in
      let split : encode_entry e ++ rest ≡ head ++ (put_uint32 crc ++ rest) =
        unfold encode_entry in append_assoc head (put_uint32 crc) rest in
      ground (
        arith,
        split,
        reads_seq rest,
        reads_typ rest,
        reads_length rest,
        stored_crc crc rest (checksum_ieee-lt head entry_head-IsByte),
        take-append (13 + length e.payload) head (put_uint32 crc ++ rest)
            (sym (length-entry_head e)),
        reads_payload (put_uint32 crc ++ rest),
        length-append (encode_entry e) rest,
        length-encode_entry e,
      )

  -- No proper prefix of an entry decodes.
  pub decode-torn :
      (n : ℕ) → n < length (encode_entry e) → decode_entry (take n (encode_entry e)) ≡ none
  unfolding decode_entry
  decode-torn n h =
      let b = encode_entry e in
      ground (
        arith,
        append-nil b,
        reads_length [],
        length-encode_entry e,
        length-take n b,
        slice-take n 9 13 b,
      )

module _ (bytes tail : List ℕ) where
  -- The entry at the head of the rest, and the rest behind it.
  pub at_head :
      (e : WalEntry) (es : List WalEntry) (p : ℕ)
      → IsWalEntry e
      → drop p bytes ≡ encode_all (e ∷ es) ++ tail
      → decode_entry (drop p bytes) ≡ some (record { entry = e; size = 13 + length e.payload + 4 })
  at_head e es p h at =
      ap decode_entry (at ∙ append_assoc (encode_entry e) (encode_all es) tail)
      ∙ decode-encode e h (encode_all es ++ tail)

  pub behind_head :
      (e : WalEntry) (es : List WalEntry) (p : ℕ)
      → drop p bytes ≡ encode_all (e ∷ es) ++ tail
      → drop (p + (13 + length e.payload + 4)) bytes ≡ encode_all es ++ tail
  behind_head e es p at =
      drop-add p (13 + length e.payload + 4) bytes
      ∙ ap (drop (13 + length e.payload + 4))
          (at ∙ append_assoc (encode_entry e) (encode_all es) tail)
      ∙ drop-append (13 + length e.payload + 4) (encode_entry e) (encode_all es ++ tail)
          (sym (length-encode_entry e))

  read_loop-encode_all :
      (fuel : ℕ) (es : List WalEntry) (p : ℕ)
      → decode_entry tail ≡ none
      → All IsWalEntry es
      → length es ≤ fuel
      → drop p bytes ≡ encode_all es ++ tail
      → read_loop fuel bytes p ≡ es
  unfolding read_loop
  read_loop-encode_all zero [] p torn h fits at = refl
  read_loop-encode_all zero (e ∷ es) p torn h fits at = absurd (omega arith)
  read_loop-encode_all (suc fuel) [] p torn h fits at = ground (arith, torn, at)
  read_loop-encode_all (suc fuel) (e ∷ es) p torn h fits at = ground (
    arith,
    at_head e es p h.0 at,
    read_loop-encode_all fuel es (p + (13 + length e.payload + 4)) torn h.1 (omega arith)
        (behind_head e es p at),
  )

-- An entry takes at least one byte.
pub length-encode_all : (es : List WalEntry) → length es ≤ length (encode_all es)
length-encode_all [] = omega arith
length-encode_all (e ∷ es) = omega (
  arith,
  length-append (encode_entry e) (encode_all es),
  length-encode_entry e,
  length-encode_all es,
)

-- `ReadAll` on entries that the format can hold, written one after another, gives them back in
-- order, and stops at bytes behind them that do not begin with an entry.
pub read_all-encode_all :
    (es : List WalEntry) (tail : List ℕ)
    → All IsWalEntry es
    → decode_entry tail ≡ none
    → read_all (encode_all es ++ tail) ≡ es
unfolding read_all
read_all-encode_all es tail h torn =
    read_loop-encode_all (encode_all es ++ tail) tail (length (encode_all es ++ tail)) es 0 torn h
      (omega (arith, length-append (encode_all es) tail, length-encode_all es)) refl
