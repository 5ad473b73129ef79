-- ===== src/Store/Tests.antt =====
-- The theorems on store files at a concrete store.
use bloom_filter_jyy_0098_go.Base.{
  ℕ, ◌≡◌, some, none, true, List, [], ◌∷◌, ◌++◌, arith, ok, take, refl,
}
use bloom_filter_jyy_0098_go.Store.{
  Store, create, add, checkpoint, test, open_file, parse_record, header,
}
use bloom_filter_jyy_0098_go.Store.Log.{added, encode_log, IsEntry}
use bloom_filter_jyy_0098_go.Store.Recovery.{store_of, open_file-log}
use bloom_filter_jyy_0098_go.Store.{corrupt_header, not_store}
use bloom_filter_jyy_0098_go.Std.BigEndian.{uint32}
use bloom_filter_jyy_0098_go.Filter
use bloom_filter_jyy_0098_go.Filter.{BloomFilter, new}
use bloom_filter_jyy_0098_go.Base.{◌-◌, if◌then◌else◌, ltb, err, All, IsByte, ◌<◌, ◌⊎◌, slice}
use bloom_filter_jyy_0098_go.Store.Crashes.{System, Reach, add_returned, crash_in_add, here, later}
use bloom_filter_jyy_0098_go.Store.Crashes.Writes.{IsKeeping}
use bloom_filter_jyy_0098_go.Store.Crashes.Keeping.{Reach-IsKeeping}
use bloom_filter_jyy_0098_go.Store.{rec_add, encode_record}
use bloom_filter_jyy_0098_go.Store.Cut.{surviving, open_file-cut}
use bloom_filter_jyy_0098_go.Store.Reopen.{open_file-open_file}
use bloom_filter_jyy_0098_go.Store.Sound.{IsSound, open_file-IsSound}
use bloom_filter_jyy_0098_go.Store.Written.{
  IsWritten, create-IsWritten, add-IsWritten, open_file-checkpoint,
}
use bloom_filter_jyy_0098_go.Store.Session.{IsDurable, create-IsDurable, add-IsDurable}

abbrev item : List ℕ
item = 7 ∷ 9 ∷ []

item-IsEntry : IsEntry (added item)
item-IsEntry = omega arith

created : (s : Store) × (create 64 7 ≡ ok s) × IsDurable s
created = create-IsDurable 64 (omega arith) (omega arith)

abbrev store64 : Store
store64 = created.0

short_tail : parse_record (1 ∷ 0 ∷ []) ≡ none
unfolding parse_record
short_tail = refl

open_file-log_example :
    open_file (header 64 ++ (encode_log (added item ∷ []) ++ 1 ∷ 0 ∷ []))
    ≡ ok (store_of 64 (added item ∷ []))
open_file-log_example =
    open_file-log 64 (added item ∷ []) (1 ∷ 0 ∷ []) (omega arith) (omega arith) (item-IsEntry, tt)
      short_tail

abbrev durable64 : IsDurable store64
durable64 = created.2

open_file-cut_example : open_file (take 12 store64.file) ≡ (
    if ltb 12 8
    then err corrupt_header
    else ok (store_of durable64.m (surviving (12 - 8) durable64.log)))
open_file-cut_example = open_file-cut store64 durable64 12

open_file-open_file_example :
    open_file (store_of 64 (added item ∷ [])).file ≡ ok (store_of 64 (added item ∷ []))
open_file-open_file_example =
    open_file-open_file (header 64 ++ (encode_log (added item ∷ []) ++ 1 ∷ 0 ∷ []))
      open_file-log_example

abbrev garbage : List ℕ
garbage = header 64 ++ 9 ∷ 8 ∷ 7 ∷ []

garbage-IsByte : All IsByte garbage
unfolding header
garbage-IsByte = omega arith

garbage-m : 0 < uint32 (slice garbage 4 8)
unfolding header uint32
garbage-m = omega arith

open_file-IsSound_example :
    (open_file garbage ≡ err corrupt_header)
    ⊎ (open_file garbage ≡ err not_store)
    ⊎ ((s : Store) × (open_file garbage ≡ ok s) × IsSound garbage s)
open_file-IsSound_example = open_file-IsSound garbage garbage-IsByte garbage-m

-- A store with three hashes, not the default seven.
written3 :
    (s : Store) × (f : BloomFilter) × (create 64 3 ≡ ok s) × (new 64 3 ≡ ok f) × IsWritten s f
written3 = create-IsWritten 64 3 (omega arith) (omega arith) (omega arith) (omega arith)

abbrev added3 :
    (s' : Store) × (add written3.0 item ≡ some (s', none))
    × IsWritten s' (Filter.add written3.1 item)
added3 = add-IsWritten written3.0 written3.1 item written3.4 item-IsEntry

open_file-checkpoint_example :
    (s' : Store) × (checkpoint added3.0 ≡ (s', none))
    × (open_file s'.file ≡ ok s')
    × (s'.filter ≡ some (Filter.add written3.1 item))
    × IsDurable s'
open_file-checkpoint_example = open_file-checkpoint added3.0 (Filter.add written3.1 item) added3.2

abbrev added64 :
    (s' : Store) × (add store64 item ≡ some (s', none)) × IsDurable s' × (test s' item ≡ some true)
added64 = add-IsDurable store64 created.2 item item-IsEntry

abbrev begun : System
begun = record { opened = ok store64; asked = []; added_items = [] }

abbrev crashed : System
crashed = record {
  opened = open_file (added64.0.file ++ take 3 (encode_record rec_add item));
  asked = item ∷ item ∷ [];
  added_items = item ∷ [];
}

-- An `Add`, and a crash three bytes into the record of the next one.
run : Reach begun crashed
run = later (later here (add_returned item refl added64.1)) (crash_in_add item 3 refl)

begun-IsKeeping : IsKeeping begun.opened begun.added_items
begun-IsKeeping = record { st = store64; is_ok = refl; durable = created.2; holds = tt }

Reach-IsKeeping_example : IsKeeping crashed.opened crashed.added_items
Reach-IsKeeping_example = Reach-IsKeeping begun-IsKeeping (item-IsEntry, (item-IsEntry, tt)) run
