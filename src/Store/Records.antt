-- ===== src/Store/Records.antt =====
-- `parseRecord` on a record that `encodeRecord` wrote, whatever follows it.
use bloom_filter_jyy_0098_go.Base.{
  ℕ, ◌+◌, ◌-◌, ◌^◌, ◌<◌, ◌≡◌, refl, ap, sym, ◌∙◌, ◌⊎◌, List, [], ◌++◌, length, get_or, slice, arith,
  some, u32, length-append, take-append, drop-append, All, IsByte, All-append,
}
use mathlib.Core.List.{append_assoc, append-nil}
use bloom_filter_jyy_0098_go.Std.BigEndian.{
  uint32, put_uint32, uint32-put_uint32, length-put_uint32,
}
use bloom_filter_jyy_0098_go.Std.Crc32.{checksum_ieee, checksum_ieee-lt}
use bloom_filter_jyy_0098_go.Store.{
  record_head, encode_record, parse_record, rec_add, rec_checkpoint,
}

-- A record that the store writes: a known type, and a payload of bytes whose length fits 32 bits.
pub record IsRecord (typ : ℕ) (payload : List ℕ) : Type 0 where
  pub known : (typ ≡ rec_add) ⊎ (typ ≡ rec_checkpoint)
  pub fits : length payload < 2 ^ 32
  pub bytes : All IsByte payload

pub length-record_head :
    (typ : ℕ) (payload : List ℕ) → length (record_head typ payload) ≡ 5 + length payload
unfolding record_head
length-record_head typ payload = omega arith

pub length-encode_record :
    (typ : ℕ) (payload : List ℕ) → length (encode_record typ payload) ≡ 5 + length payload + 4
unfolding encode_record
length-encode_record typ payload =
    let crc = checksum_ieee (record_head typ payload) in
    omega (
      arith,
      length-append (record_head typ payload) (put_uint32 crc),
      length-record_head typ payload,
      length-put_uint32 crc,
    )

module _ {typ : ℕ} {payload : List ℕ} (r : IsRecord typ payload) where
  record_head-IsByte : All IsByte (record_head typ payload)
  unfolding record_head
  record_head-IsByte = (
    omega arith,
    All-append IsByte (put_uint32 (u32 (length payload))) payload (omega arith) r.bytes,
  )

  -- The checksum that `parseRecord` reads behind the head is the one that was written.
  stored_crc :
      (crc : ℕ) (rest : List ℕ)
      → crc < 2 ^ 32
      → uint32 (
          slice
            (record_head typ payload ++ (put_uint32 crc ++ rest))
            (5 + length payload)
            (5 + length payload + 4))
        ≡ crc
  stored_crc crc rest h =
      let width : 5 + length payload + 4 - (5 + length payload) ≡ 4 = omega arith in
      rw
        (
          width,
          drop-append (5 + length payload) (record_head typ payload) (put_uint32 crc ++ rest)
              (sym (length-record_head typ payload)),
          take-append 4 (put_uint32 crc) rest (sym (length-put_uint32 crc)),
        )
        (ap uint32 (sym (append-nil (put_uint32 crc))) ∙ uint32-put_uint32 crc [] h)

  -- The fields that `parseRecord` reads at the front of a record.
  pub reads_type : (rest : List ℕ) → get_or (encode_record typ payload ++ rest) 0 0 ≡ typ
  unfolding encode_record record_head
  reads_type rest = refl

  pub reads_length :
      (rest : List ℕ) → uint32 (slice (encode_record typ payload ++ rest) 1 5) ≡ length payload
  unfolding encode_record record_head uint32
  reads_length rest = omega (arith, r.fits)

  reads_payload :
      (rest : List ℕ) → slice (record_head typ payload ++ rest) 5 (5 + length payload) ≡ payload
  unfolding record_head
  reads_payload rest =
      let width : 5 + length payload - 5 ≡ length payload = omega arith in
      rw width (take-append (length payload) payload rest refl)

  -- `parseRecord` gives back a record that was written, and the bytes that it takes.
  pub parse-encode :
      (rest : List ℕ)
      → parse_record (encode_record typ payload ++ rest)
        ≡ some (record { typ = typ; payload = payload; size = 5 + length payload + 4 })
  unfolding parse_record
  parse-encode rest =
      let head = record_head typ payload in
      let crc = checksum_ieee head in
      let split : encode_record typ payload ++ rest ≡ head ++ (put_uint32 crc ++ rest) =
        unfold encode_record in append_assoc head (put_uint32 crc) rest in
      ground (
        arith,
        split,
        reads_type rest,
        reads_length rest,
        stored_crc crc rest (checksum_ieee-lt head record_head-IsByte),
        take-append (5 + length payload) head (put_uint32 crc ++ rest)
            (sym (length-record_head typ payload)),
        reads_payload (put_uint32 crc ++ rest),
        length-append (encode_record typ payload) rest,
        length-encode_record typ payload,
      )
