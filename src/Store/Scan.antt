-- ===== src/Store/Scan.antt =====
-- The two passes of `Open` over the bytes of a log.
use bloom_filter_jyy_0098_go.Base.{
  ℕ, zero, suc, ◌+◌, ◌<◌, ◌≤◌, ◌≡◌, refl, ap, ◌∙◌, Option, some, none, List, [], ◌∷◌, ◌++◌, length,
  drop, arith, All, length-append, drop-append, drop-add, if◌then◌else◌, ◌==◌, append_assoc,
  append-nil,
}
use bloom_filter_jyy_0098_go.Filter.{BloomFilter}
use bloom_filter_jyy_0098_go.Filter.View.{params-add}
use bloom_filter_jyy_0098_go.Codec.RoundTrip.{unmarshal-marshal}
use bloom_filter_jyy_0098_go.Store.{
  parse_record, Parsed, Replay, last_checkpoint, replay, replay_record, rec_checkpoint,
}
use bloom_filter_jyy_0098_go.Store.Records.{parse-encode, length-encode_record}
use bloom_filter_jyy_0098_go.Store.Log.{
  Entry, added, snapshot, type_of, payload_of, encode_entry, encode_log, IsEntry, entry-IsRecord,
  step, apply_all, fresh, default_filter-eq-fresh,
}

-- The offset of the last checkpoint of a log that starts at offset p.
abbrev pub last_of : List Entry → ℕ → Option ℕ → Option ℕ
last_of [] p last = last
last_of (e ∷ es) p last =
    last_of es (p + length (encode_entry e)) (if type_of e == rec_checkpoint then some p else last)

-- k as `Open` keeps it: 0 before there is a filter.
abbrev pub k_of : Option BloomFilter → ℕ
k_of none = 0
k_of (some f) = f.k

abbrev pub state : Option BloomFilter → ℕ → Replay
state bf p = record { bf = bf; k = k_of bf; pos = p }

-- The entry at the head of what is left of the file.
abbrev parsed : Entry → Parsed
parsed e = record { typ = type_of e; payload = payload_of e; size = 5 + length (payload_of e) + 4 }

-- What an Add or Checkpoint record does in the replay is what its entry does in the log.
replay_record-eq-step :
    (m : ℕ) (e : Entry) (bf : Option BloomFilter) (p : ℕ)
    → 0 < m
    → IsEntry e
    → replay_record m (parsed e) (state bf p) ≡ some (state (some (step m e bf)) p)
unfolding replay_record
replay_record-eq-step m (added x) none p h ok_e =
    unfold fresh in ground (arith, default_filter-eq-fresh m h, params-add (fresh m) x)
replay_record-eq-step m (added x) (some f) p h ok_e = ground (arith, params-add f x)
replay_record-eq-step m (snapshot f) bf p h ok_e =
    ground
      (arith, unmarshal-marshal f [] ok_e.valid ok_e.fits, append-nil (payload_of (snapshot f)))

module _ (bytes tail : List ℕ) (torn : parse_record tail ≡ none) where
  -- The record at the head of the rest, and the rest behind it.
  parse_head :
      (e : Entry) (es : List Entry) (p : ℕ)
      → IsEntry e
      → drop p bytes ≡ encode_log (e ∷ es) ++ tail
      → parse_record (drop p bytes) ≡ some (parsed e)
  parse_head e es p h at =
      ap parse_record (at ∙ append_assoc (encode_entry e) (encode_log es) tail)
      ∙ parse-encode (entry-IsRecord e h) (encode_log es ++ tail)

  rest_after :
      (e : Entry) (es : List Entry) (p : ℕ)
      → drop p bytes ≡ encode_log (e ∷ es) ++ tail
      → drop (p + length (encode_entry e)) bytes ≡ encode_log es ++ tail
  rest_after e es p at =
      drop-add p (length (encode_entry e)) bytes
      ∙ ap (drop (length (encode_entry e)))
          (at ∙ append_assoc (encode_entry e) (encode_log es) tail)
      ∙ drop-append (length (encode_entry e)) (encode_entry e) (encode_log es ++ tail) refl

  pub last_checkpoint-eq-last_of :
      (fuel : ℕ) (es : List Entry) (p : ℕ) (last : Option ℕ)
      → All IsEntry es
      → length es ≤ fuel
      → drop p bytes ≡ encode_log es ++ tail
      → last_checkpoint fuel bytes p last ≡ last_of es p last
  unfolding last_checkpoint
  last_checkpoint-eq-last_of zero [] p last h fits at = refl
  last_checkpoint-eq-last_of zero (e ∷ es) p last h fits at = absurd (omega arith)
  last_checkpoint-eq-last_of (suc fuel) [] p last h fits at = ground (arith, torn, at)
  last_checkpoint-eq-last_of (suc fuel) (e ∷ es) p last h fits at = ground (
    arith,
    parse_head e es p h.0 at,
    length-encode_record (type_of e) (payload_of e),
    last_checkpoint-eq-last_of fuel es (p + length (encode_entry e))
        (if type_of e == rec_checkpoint then some p else last) h.1 (omega arith)
        (rest_after e es p at),
  )

  pub replay-eq-apply_all :
      (fuel m : ℕ) (es : List Entry) (bf : Option BloomFilter) (p : ℕ)
      → 0 < m
      → All IsEntry es
      → length es ≤ fuel
      → drop p bytes ≡ encode_log es ++ tail
      → replay fuel bytes m (state bf p)
        ≡ some (state (apply_all m bf es) (p + length (encode_log es)))
  unfolding replay
  replay-eq-apply_all zero m [] bf p pos h fits at = ground arith
  replay-eq-apply_all zero m (e ∷ es) bf p pos h fits at = absurd (omega arith)
  replay-eq-apply_all (suc fuel) m [] bf p pos h fits at = ground (arith, torn, at)
  replay-eq-apply_all (suc fuel) m (e ∷ es) bf p pos h fits at = ground (
    arith,
    parse_head e es p h.0 at,
    replay_record-eq-step m e bf p pos h.0,
    length-encode_record (type_of e) (payload_of e),
    length-append (encode_entry e) (encode_log es),
    replay-eq-apply_all fuel m es (some (step m e bf)) (p + length (encode_entry e)) pos h.1
        (omega arith) (rest_after e es p at),
  )
