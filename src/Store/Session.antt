-- ===== src/Store/Session.antt =====
-- Sessions of store.go, from `Create` or `Open` through `Add` and `Checkpoint` to the next `Open`.
use bloom_filter_jyy_0098_go.Base.{
  ℕ, zero, suc, ◌^◌, ◌<◌, ◌≡◌, refl, ap, sym, ◌∙◌, subst, Option, some, none, List, [], ◌∷◌, ◌++◌,
  length, take, arith, All, append_assoc, append-nil, ok, true, All-append,
}
use bloom_filter_jyy_0098_go.Filter
use bloom_filter_jyy_0098_go.Filter.{BloomFilter, FilterError, bytes_for, new}
use bloom_filter_jyy_0098_go.Filter.Valid.{IsValid, add-IsValid, new-IsValid}
use bloom_filter_jyy_0098_go.Filter.View.{params-add}
use bloom_filter_jyy_0098_go.Filter.Membership.{test-add}
use bloom_filter_jyy_0098_go.Codec.RoundTrip.{FitsFormat}
use bloom_filter_jyy_0098_go.Store.{
  Store, create, add, checkpoint, test, open_file, parse_record, header,
}
use bloom_filter_jyy_0098_go.Store.Torn.{parse-torn}
use bloom_filter_jyy_0098_go.Store.Log.{
  Entry, added, snapshot, encode_entry, encode_log, encode_log-append, IsEntry, Storable,
  entry-IsRecord, step, apply_all, apply_all-append, meaning, fresh,
}
use bloom_filter_jyy_0098_go.Store.Recovery.{store_of, open_file-log, settled}

-- The store is what its own log of records stands for, and its filter is one that fits the format.
pub record IsDurable (s : Store) : Type 0 where
  pub m : ℕ
  pub log : List Entry
  pub pos : 0 < m
  pub small : m < 2 ^ 32
  pub written : All IsEntry log
  pub valid : IsValid (meaning m log)
  pub fits : FitsFormat (meaning m log)
  pub is : s ≡ store_of m log

-- Reopening the file of a durable store, with bytes behind it that do not begin with a record,
-- gives that store, byte for byte.
pub open_file-IsDurable :
    (s : Store) (tail : List ℕ)
    → IsDurable s
    → parse_record tail ≡ none
    → open_file (s.file ++ tail) ≡ ok s
unfolding store_of
open_file-IsDurable s tail d torn =
    ap (λ (t : Store). open_file (t.file ++ tail)) d.is
    ∙ ap open_file (append_assoc (header d.m) (encode_log d.log) tail)
    ∙ open_file-log d.m d.log tail d.pos d.small d.written torn
    ∙ ap ok (sym d.is)

settled-step :
    (m : ℕ) (bf : Option BloomFilter) (x : List ℕ)
    → step m (added x) bf ≡ Filter.add (settled m bf) x
settled-step m none x = refl
settled-step m (some f) x = refl

meaning-added :
    (m : ℕ) (es : List Entry) (x : List ℕ)
    → meaning m (es ++ added x ∷ []) ≡ Filter.add (meaning m es) x
unfolding meaning
meaning-added m es x =
    ap (settled m) (apply_all-append m none es (added x ∷ []))
    ∙ settled-step m (apply_all m none es) x

pub meaning-snapshot :
    (m : ℕ) (es : List Entry) (f : BloomFilter) → meaning m (es ++ snapshot f ∷ []) ≡ f
unfolding meaning
meaning-snapshot m es f = ap (settled m) (apply_all-append m none es (snapshot f ∷ []))

pub encode_log-snoc :
    (es : List Entry) (e : Entry) → encode_log (es ++ e ∷ []) ≡ encode_log es ++ encode_entry e
encode_log-snoc es e =
    encode_log-append es (e ∷ []) ∙ ap (λ t. encode_log es ++ t) (append-nil (encode_entry e))

pub FitsFormat-add : (f : BloomFilter) (x : List ℕ) → FitsFormat f → FitsFormat (Filter.add f x)
FitsFormat-add f x h = record {
  m_32 = omega (arith, params-add f x, h.m_32);
  k_32 = omega (arith, params-add f x, h.k_32);
}

pub Storable-of : (f : BloomFilter) → IsValid f → FitsFormat f → Storable f
Storable-of f v h = record { valid = v; fits = h; small = omega (arith, v.sized, h.m_32) }

module _ (m : ℕ) (es : List Entry) where
  add-store_of : (x : List ℕ) → add (store_of m es) x ≡ some (store_of m (es ++ added x ∷ []), none)
  unfolding add store_of
  add-store_of x = ground (
    arith,
    encode_log-snoc es (added x),
    append_assoc (header m) (encode_log es) (encode_entry (added x)),
    meaning-added m es x,
    params-add (meaning m es) x,
  )

  checkpoint-store_of :
      checkpoint (store_of m es) ≡ (store_of m (es ++ snapshot (meaning m es) ∷ []), none)
  unfolding checkpoint store_of
  checkpoint-store_of = ground (
    arith,
    encode_log-snoc es (snapshot (meaning m es)),
    append_assoc (header m) (encode_log es) (encode_entry (snapshot (meaning m es))),
    meaning-snapshot m es (meaning m es),
  )

  filter-store_of : (store_of m es).filter ≡ some (meaning m es)
  unfolding store_of
  filter-store_of = refl

-- A log that is longer by one entry.
longer :
    (m : ℕ) (es : List Entry) (e : Entry) (f : BloomFilter)
    → 0 < m
    → m < 2 ^ 32
    → All IsEntry es
    → IsEntry e
    → meaning m (es ++ e ∷ []) ≡ f
    → IsValid f
    → FitsFormat f
    → IsDurable (store_of m (es ++ e ∷ []))
longer m es e f pos small written new_entry means v fits = record {
  m = m;
  log = es ++ e ∷ [];
  pos = pos;
  small = small;
  written = All-append IsEntry es (e ∷ []) written (new_entry, tt);
  valid = subst IsValid (sym means) v;
  fits = subst FitsFormat (sym means) fits;
  is = refl;
}

module _ (s : Store) (d : IsDurable s) where
  -- `Add` of an item that the format can hold succeeds on a durable store and leaves it durable,
  -- and the item then tests as present.
  pub add-IsDurable :
      (x : List ℕ)
      → IsEntry (added x)
      → (s' : Store) × (add s x ≡ some (s', none)) × IsDurable s' × (test s' x ≡ some true)
  unfolding test
  add-IsDurable x fits_x =
      let f = meaning d.m d.log in
      (
        store_of d.m (d.log ++ added x ∷ []),
        ap (λ (t : Store). add t x) d.is ∙ add-store_of d.m d.log x,
        longer d.m d.log (added x) (Filter.add f x) d.pos d.small d.written fits_x
            (meaning-added d.m d.log x) (add-IsValid f x d.valid) (FitsFormat-add f x d.fits),
        ground (
          arith,
          filter-store_of d.m (d.log ++ added x ∷ []),
          meaning-added d.m d.log x,
          test-add f x d.valid,
        ),
      )

  -- `Checkpoint` of a durable store succeeds and leaves it durable, with the filter unchanged.
  pub checkpoint-IsDurable :
      (s' : Store) × (checkpoint s ≡ (s', none)) × IsDurable s' × (s'.filter ≡ s.filter)
  checkpoint-IsDurable =
      let f = meaning d.m d.log in
      (
        store_of d.m (d.log ++ snapshot f ∷ []),
        ap checkpoint d.is ∙ checkpoint-store_of d.m d.log,
        longer d.m d.log (snapshot f) f d.pos d.small d.written (Storable-of f d.valid d.fits)
            (meaning-snapshot d.m d.log f) d.valid d.fits,
        ground (
          arith,
          filter-store_of d.m (d.log ++ snapshot f ∷ []),
          filter-store_of d.m d.log,
          meaning-snapshot d.m d.log f,
          d.is,
        ),
      )

  -- A crash while a durable store writes a record of an entry that the format can hold: whatever
  -- proper prefix of the record reached the file, reopening gives the store from before the write.
  pub open_file-torn :
      (e : Entry) (n : ℕ)
      → IsEntry e
      → n < length (encode_entry e)
      → open_file (s.file ++ take n (encode_entry e)) ≡ ok s
  open_file-torn e n fits_e h =
      open_file-IsDurable s (take n (encode_entry e)) d (parse-torn (entry-IsRecord e fits_e) n h)

-- `Create` with 0 < m < 2^32 and k = 7 succeeds, and the store is durable.
pub create-IsDurable :
    (m : ℕ) → 0 < m → m < 2 ^ 32 → (s : Store) × (create m 7 ≡ ok s) × IsDurable s
unfolding create store_of meaning fresh new
create-IsDurable zero pos small = absurd (omega arith)
create-IsDurable (suc m) pos small = (
  store_of (suc m) [],
  ground (arith, append-nil (header (suc m))),
  record {
    m = suc m;
    log = [];
    pos = pos;
    small = small;
    written = tt;
    valid = new-IsValid (suc m) 7 (omega arith) (omega arith) (ground arith);
    fits = record { m_32 = small; k_32 = omega arith };
    is = refl;
  },
)
