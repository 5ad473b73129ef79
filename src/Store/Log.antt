-- ===== src/Store/Log.antt =====
-- The abstract log: what the records of a store file mean, without their bytes.
use bloom_filter_jyy_0098_go.Base.{
  ℕ, zero, suc, ◌+◌, ◌<◌, ◌≤◌, ◌≡◌, ◌^◌, refl, ap, Option, some, none, List, [], ◌∷◌, ◌++◌, length,
  arith, All, IsByte, All-append, replicate, inl, inr, length-append, ◌∙◌, sym,
}
use mathlib.Core.List.{append_assoc}
use bloom_filter_jyy_0098_go.Std.BigEndian.{put_uint32, put_uint32-IsByte}
use bloom_filter_jyy_0098_go.Std.Crc32.{checksum_ieee}
use bloom_filter_jyy_0098_go.Filter
use bloom_filter_jyy_0098_go.Filter.{BloomFilter, bytes_for, new}
use bloom_filter_jyy_0098_go.Filter.Valid.{IsValid}
use bloom_filter_jyy_0098_go.Codec.{marshal, payload_v2}
use bloom_filter_jyy_0098_go.Codec.RoundTrip.{FitsFormat, payload_v2-IsByte}
use bloom_filter_jyy_0098_go.Codec.Damage.{length-marshal}
use bloom_filter_jyy_0098_go.Store.{encode_record, rec_add, rec_checkpoint, default_filter}
use bloom_filter_jyy_0098_go.Store.Records.{IsRecord, length-encode_record}

-- An item that was added, or a checkpoint of a filter.
pub data Entry : Type 0 where
  added : List ℕ → Entry
  snapshot : BloomFilter → Entry

abbrev pub type_of : Entry → ℕ
type_of (added x) = rec_add
type_of (snapshot f) = rec_checkpoint

abbrev pub payload_of : Entry → List ℕ
payload_of (added x) = x
payload_of (snapshot f) = marshal (some f)

abbrev pub encode_entry : Entry → List ℕ
encode_entry e = encode_record (type_of e) (payload_of e)

abbrev pub encode_log : List Entry → List ℕ
encode_log [] = []
encode_log (e ∷ es) = encode_entry e ++ encode_log es

-- A filter that a checkpoint can hold: valid, with parameters and an encoding of 32-bit size.
pub record Storable (f : BloomFilter) : Type 0 where
  pub valid : IsValid f
  pub fits : FitsFormat f
  pub small : 13 + length f.bits + 4 < 2 ^ 32

-- An entry that the format can hold.
abbrev pub IsEntry : Entry → Type 0
IsEntry (added x) = (length x < 2 ^ 32) × All IsByte x
IsEntry (snapshot f) = Storable f

pub marshal-IsByte : (f : BloomFilter) → IsValid f → All IsByte (marshal (some f))
unfolding marshal
marshal-IsByte f v =
    let crc = checksum_ieee (payload_v2 f) in
    All-append IsByte (payload_v2 f) (put_uint32 crc) (payload_v2-IsByte f v)
      (put_uint32-IsByte crc)

pub entry-IsRecord : (e : Entry) → IsEntry e → IsRecord (type_of e) (payload_of e)
entry-IsRecord (added x) h = record { known = inl refl; fits = h.0; bytes = h.1 }
entry-IsRecord (snapshot f) h = record {
  known = inr refl;
  fits = omega (arith, length-marshal f, h.small);
  bytes = marshal-IsByte f h.valid;
}

-- The filter that replay makes when a log starts with an added item: k is 7.
unfoldable pub fresh : ℕ → BloomFilter
fresh m = record { m = m; k = 7; bits = replicate (bytes_for m) 0 }

pub default_filter-eq-fresh : (m : ℕ) → 0 < m → default_filter m ≡ some (fresh m)
unfolding default_filter fresh new
default_filter-eq-fresh zero h = absurd (omega arith)
default_filter-eq-fresh (suc m) h = ground arith

-- The filter after an entry, given the filter before it, if there is one yet.
abbrev pub step : ℕ → Entry → Option BloomFilter → BloomFilter
step m (snapshot f) bf = f
step m (added x) none = Filter.add (fresh m) x
step m (added x) (some f) = Filter.add f x

abbrev pub apply_all : ℕ → Option BloomFilter → List Entry → Option BloomFilter
apply_all m bf [] = bf
apply_all m bf (e ∷ es) = apply_all m (some (step m e bf)) es

pub apply_all-append :
    (m : ℕ) (bf : Option BloomFilter) (xs ys : List Entry)
    → apply_all m bf (xs ++ ys) ≡ apply_all m (apply_all m bf xs) ys
apply_all-append m bf [] ys = refl
apply_all-append m bf (x ∷ xs) ys = apply_all-append m (some (step m x bf)) xs ys

-- The filter that a log means: its entries applied in order, all of them.
unfoldable pub meaning : ℕ → List Entry → BloomFilter
meaning m es = elim (apply_all m none es) [ some f ↦ f | none ↦ fresh m ]

pub encode_log-append :
    (xs ys : List Entry) → encode_log (xs ++ ys) ≡ encode_log xs ++ encode_log ys
encode_log-append [] ys = refl
encode_log-append (x ∷ xs) ys =
    ap (λ t. encode_entry x ++ t) (encode_log-append xs ys)
    ∙ sym (append_assoc (encode_entry x) (encode_log xs) (encode_log ys))

-- A record takes at least nine bytes, so there are no more entries than bytes.
pub length-encode_log : (es : List Entry) → length es ≤ length (encode_log es)
length-encode_log [] = omega arith
length-encode_log (e ∷ es) = omega (
  arith,
  length-append (encode_entry e) (encode_log es),
  length-encode_record (type_of e) (payload_of e),
  length-encode_log es,
)
