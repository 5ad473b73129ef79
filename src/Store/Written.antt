-- ===== src/Store/Written.antt =====
-- Stores of any k: what is in memory before the first checkpoint, and what a checkpoint makes sure of.
use bloom_filter_jyy_0098_go.Base.{
  ℕ, zero, suc, ◌^◌, ◌<◌, ◌≡◌, refl, ap, sym, ◌∙◌, subst, some, none, List, [], ◌∷◌, ◌++◌, arith,
  All, append_assoc, append-nil, replicate, ok, true, All-append,
}
use bloom_filter_jyy_0098_go.Filter
use bloom_filter_jyy_0098_go.Filter.{BloomFilter, new, bytes_for}
use bloom_filter_jyy_0098_go.Filter.Valid.{IsValid, add-IsValid, new-IsValid}
use bloom_filter_jyy_0098_go.Filter.View.{params-add}
use bloom_filter_jyy_0098_go.Codec.RoundTrip.{FitsFormat}
use bloom_filter_jyy_0098_go.Store.{Store, create, add, checkpoint, open_file, header, parse_record}
use bloom_filter_jyy_0098_go.Store.Log.{
  Entry, added, snapshot, encode_entry, encode_log, IsEntry, meaning,
}
use bloom_filter_jyy_0098_go.Store.Recovery.{store_of}
use bloom_filter_jyy_0098_go.Store.Session.{
  IsDurable, encode_log-snoc, FitsFormat-add, Storable-of, meaning-snapshot, open_file-IsDurable,
}

-- An open store with a valid filter that fits the format, whose file is a header and records. The
-- filter need not be what the records mean.
pub record IsWritten (s : Store) (f : BloomFilter) : Type 0 where
  pub m : ℕ
  pub log : List Entry
  pub pos : 0 < m
  pub small : m < 2 ^ 32
  pub written : All IsEntry log
  pub valid : IsValid f
  pub fits : FitsFormat f
  pub is :
      s ≡ record { file = header m ++ encode_log log; is_open = true; filter = some f; k = f.k }

pub create-IsWritten :
    (m k : ℕ)
    → 0 < m
    → m < 2 ^ 32
    → 0 < k
    → k < 2 ^ 32
    → (s : Store) × (f : BloomFilter) × (create m k ≡ ok s) × (new m k ≡ ok f) × IsWritten s f
unfolding create new
create-IsWritten zero k pos small k_pos k_small = absurd (omega arith)
create-IsWritten (suc m) zero pos small k_pos k_small = absurd (omega arith)
create-IsWritten (suc m) (suc k) pos small k_pos k_small = (
  stored,
  made,
  ground arith,
  ground arith,
  record {
    m = suc m;
    log = [];
    pos = pos;
    small = small;
    written = tt;
    valid = new-IsValid (suc m) (suc k) (omega arith) (omega arith) (ground arith);
    fits = record { m_32 = small; k_32 = k_small };
    is = ground (arith, append-nil (header (suc m)));
  },
)
  where
    made : BloomFilter
    made = record { m = suc m; k = suc k; bits = replicate (bytes_for (suc m)) 0 }

    stored : Store
    stored = record { file = header (suc m); is_open = true; filter = some made; k = suc k }

-- A record behind the log of a store is a log that is longer by one entry.
file-snoc :
    (m : ℕ) (es : List Entry) (e : Entry)
    → (header m ++ encode_log es) ++ encode_entry e ≡ header m ++ encode_log (es ++ e ∷ [])
file-snoc m es e =
    append_assoc (header m) (encode_log es) (encode_entry e)
    ∙ ap (λ t. header m ++ t) (sym (encode_log-snoc es e))

pub add-IsWritten :
    (s : Store) (f : BloomFilter) (x : List ℕ)
    → IsWritten s f
    → IsEntry (added x)
    → (s' : Store) × (add s x ≡ some (s', none)) × IsWritten s' (Filter.add f x)
unfolding add
add-IsWritten s f x w fits_x = (
  record {
    file = header w.m ++ encode_log (w.log ++ added x ∷ []);
    is_open = true;
    filter = some (Filter.add f x);
    k = (Filter.add f x).k;
  },
  rw w.is (ground (arith, file-snoc w.m w.log (added x), params-add f x)),
  record {
    m = w.m;
    log = w.log ++ added x ∷ [];
    pos = w.pos;
    small = w.small;
    written = All-append IsEntry w.log (added x ∷ []) w.written (fits_x, tt);
    valid = add-IsValid f x w.valid;
    fits = FitsFormat-add f x w.fits;
    is = refl;
  },
)

-- `Checkpoint` of an open store, whose filter is valid and has the k of the store and m and k
-- below 2^32, and whose file is a header of some m, 0 < m < 2^32, and records that the format can
-- hold, whatever these mean, succeeds, and the file it leaves opens as exactly that store, its
-- filter unchanged.
pub open_file-checkpoint :
    (s : Store) (f : BloomFilter)
    → IsWritten s f
    → (s' : Store) × (checkpoint s ≡ (s', none))
      × (open_file s'.file ≡ ok s')
      × (s'.filter ≡ some f)
      × IsDurable s'
unfolding checkpoint store_of parse_record
open_file-checkpoint s f w = (
  after,
  checkpointed,
  ap open_file (sym (append-nil after.file)) ∙ open_file-IsDurable after [] durable refl,
  ap some means,
  durable,
)
  where
    es : List Entry
    es = w.log ++ snapshot f ∷ []

    means : meaning w.m es ≡ f
    means = meaning-snapshot w.m w.log f

    after : Store
    after = store_of w.m es

    checkpointed : checkpoint s ≡ (after, none)
    checkpointed = rw w.is (ground (arith, file-snoc w.m w.log (snapshot f), means))

    durable : IsDurable after
    durable = record {
      m = w.m;
      log = es;
      pos = w.pos;
      small = w.small;
      written =
          All-append IsEntry w.log (snapshot f ∷ []) w.written (Storable-of f w.valid w.fits, tt);
      valid = subst IsValid (sym means) w.valid;
      fits = subst FitsFormat (sym means) w.fits;
      is = refl;
    }
