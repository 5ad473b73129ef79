-- ===== src/Store/Holds.antt =====
-- What a durable store of store.go holds, and that it keeps it.
use bloom_filter_jyy_0098_go.Base.{
  ℕ, ◌≡◌, refl, sym, ap, ◌∙◌, List, [], ok, some, none, arith, true, append-nil,
}
use bloom_filter_jyy_0098_go.Filter
use bloom_filter_jyy_0098_go.Filter.{BloomFilter}
use bloom_filter_jyy_0098_go.Filter.Valid.{IsValid}
use bloom_filter_jyy_0098_go.Filter.Membership.{test-add_mono}
use bloom_filter_jyy_0098_go.Store
use bloom_filter_jyy_0098_go.Store.{Store, parse_record, write_record, open_file}
use bloom_filter_jyy_0098_go.Store.Log.{meaning}
use bloom_filter_jyy_0098_go.Store.Recovery.{store_of}
use bloom_filter_jyy_0098_go.Store.Session.{IsDurable, open_file-IsDurable}

-- The filter of a durable store.
pub filter-IsDurable :
    (s : Store) → IsDurable s → (f : BloomFilter) × (s.filter ≡ some f) × IsValid f
unfolding store_of
filter-IsDurable s d = (meaning d.m d.log, ap (λ (t : Store). t.filter) d.is, d.valid)

-- What `Add` does to the filter of a store.
pub filter-add :
    (s s' : Store) (x : List ℕ) {f : BloomFilter}
    → s.filter ≡ some f
    → Store.add s x ≡ some (s', none)
    → s'.filter ≡ some (Filter.add f x)
unfolding Store.add write_record
filter-add s s' x e a = ground (arith, e, a)

-- An item of a durable store is still there after another is added.
pub test-add_durable :
    (s s' : Store) (item x : List ℕ)
    → IsDurable s
    → Store.add s x ≡ some (s', none)
    → Store.test s item ≡ some true
    → Store.test s' item ≡ some true
unfolding Store.test
test-add_durable s s' item x d a t =
    let f = filter-IsDurable s d in
    ground (arith, filter-add s s' x f.1 a, f.1, test-add_mono f.0 item x f.2)

-- Reopening the file of a durable store.
pub open_file-own : (s : Store) → IsDurable s → open_file s.file ≡ ok s
unfolding parse_record
open_file-own s d = ap open_file (sym (append-nil s.file)) ∙ open_file-IsDurable s [] d refl
