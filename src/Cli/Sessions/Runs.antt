-- ===== src/Cli/Sessions/Runs.antt =====
-- What one run of store-add or checkpoint leaves in a store file.
use bloom_filter_jyy_0098_go.Base.{
  ℕ, zero, suc, ◌^◌, ◌<◌, ◌≡◌, inl, inr, refl, sym, ap, ◌∙◌, some, none, List, [], ◌∷◌, ◌++◌,
  length, arith, All, All-append, ok, true, Bool-cases, append_assoc, append-nil, ◌==◌,
  Result-cases, replicate,
}
use bloom_filter_jyy_0098_go.Filter
use bloom_filter_jyy_0098_go.Filter.{BloomFilter, new, bytes_for}
use bloom_filter_jyy_0098_go.Store
use bloom_filter_jyy_0098_go.Store.{
  Store, create, write_record, encode_record, rec_add, header, open_file,
}
use bloom_filter_jyy_0098_go.Store.Session.{create-IsDurable, checkpoint-IsDurable}
use bloom_filter_jyy_0098_go.Store.Holds.{open_file-own}
use bloom_filter_jyy_0098_go.Store.Crashes.Writes.{test-same, All_mono}
use bloom_filter_jyy_0098_go.Cli.{
  Read, missing, map_err, contents, all_items, add_each, open_or_create, open_store, run_store_add,
  run_checkpoint, read_file, from_store,
}
use bloom_filter_jyy_0098_go.Cli.Stores.{IsItem, add_each-IsDurable}
use bloom_filter_jyy_0098_go.Cli.Sessions.{Disk, IsHolding}

-- The records of items.
records : List (List ℕ) → List ℕ
records [] = []
records (x ∷ xs) = encode_record rec_add x ++ records xs

-- What `add_each` writes to an open store does not depend on its filter.
file-add_each :
    (items : List (List ℕ)) (s s' : Store) (f : BloomFilter)
    → s.is_open ≡ true
    → s.filter ≡ some f
    → add_each items s ≡ ok s'
    → s'.file ≡ s.file ++ records items
unfolding add_each records Store.add write_record
file-add_each [] s s' f o e a =
    let same : s ≡ s' = ground (arith, a) in
    ap (λ (t : Store). t.file) (sym same) ∙ sym (append-nil s.file)
file-add_each (x ∷ xs) s s' f o e a =
    let next : Store = record s {
      file = s.file ++ encode_record rec_add x;
      filter = some (Filter.add f x);
    } in
    let first : Store.add s x ≡ some (next, none) = rw e (ground (arith, o)) in
    let rest : add_each xs next ≡ ok s' = ground (arith, first, a) in
    file-add_each xs next s' (Filter.add f x) o refl rest
    ∙ append_assoc s.file (encode_record rec_add x) (records xs)

-- The parts of a run of store-add that succeeded.
pub added_parts :
    (file : List ℕ) (m k : ℕ) (values args : List (List ℕ)) (read : Read) {bytes : List ℕ} {n : ℕ}
    → run_store_add file m k values args read ≡ ok (bytes, n)
    → (s : Store) × (s' : Store) × (open_or_create m k read ≡ ok s)
      × (add_each (all_items [] values args) s ≡ ok s')
      × (bytes ≡ s'.file)
unfolding run_store_add
added_parts file m k values args read e = elim (Result-cases (open_or_create m k read)) [
  | inl (s, opened) ↦ elim (Result-cases (add_each (all_items [] values args) s)) [
    | inl (s', added) ↦ (s, s', opened, added, ground (arith, e, opened, added))
    | inr (inl (x, q)) ↦ absurd (ground (arith, e, opened, q))
    | inr (inr q) ↦ absurd (ground (arith, e, opened, q))
  ]
  | inr (inl (x, q)) ↦ absurd (ground (arith, e, q))
  | inr (inr q) ↦ absurd (ground (arith, e, q))
]

-- A store that `Create` gives.
created :
    (m k : ℕ) (s : Store)
    → open_or_create m k missing ≡ ok s
    → (0 < m) × (s.file ≡ header m) × (s.is_open ≡ true) × (f : BloomFilter) × (s.filter ≡ some f)
unfolding open_or_create Store.create new
created zero k s e = absurd (ground (arith, e))
created (suc m) zero s e = absurd (ground (arith, e))
created (suc m) (suc k) s e = (
  omega arith,
  ground (arith, e),
  ground (arith, e),
  record { m = suc m; k = suc k; bits = replicate (bytes_for (suc m)) 0 },
  ground (arith, e),
)

-- The file of a new store of m bits to which items were added.
first_file :
    (m k : ℕ) (items : List (List ℕ)) (s s' : Store)
    → open_or_create m k missing ≡ ok s
    → add_each items s ≡ ok s'
    → (0 < m) × (s'.file ≡ header m ++ records items)
first_file m k items s s' e a =
    let c = created m k s e in
    (c.0, file-add_each items s s' c.3 c.2 c.4 a ∙ ap (λ t. t ++ records items) c.1)

-- So a first run with any k leaves the file of a run with the k that `Open` assumes.
pub first_run :
    (m k : ℕ) (items : List (List ℕ)) (s s' : Store)
    → m < 2 ^ 32
    → All IsItem items
    → open_or_create m k missing ≡ ok s
    → add_each items s ≡ ok s'
    → IsHolding (contents s'.file) (items ++ [])
unfolding open_or_create
first_run m k items s s' small h e a =
    let file = first_file m k items s s' e a in
    let c = create-IsDurable m file.0 small in
    let opened : open_or_create m 7 missing ≡ ok c.0 = ap (map_err from_store) c.1 in
    let r = add_each-IsDurable items c.0 c.2 h in
    let again = first_file m 7 items c.0 r.0 opened r.1 in
    record {
      st = r.0;
      durable = r.2;
      is = ap contents (file.1 ∙ sym again.1);
      holds = All-append (λ x. Store.test r.0 x ≡ some true) items [] r.3 tt;
    }

-- A later run, on the file of a durable store.
pub later_run :
    (m k : ℕ) (items : List (List ℕ)) (d : Disk) (s s' : Store)
    → All IsItem items
    → IsHolding d.read d.items
    → open_or_create m k d.read ≡ ok s
    → add_each items s ≡ ok s'
    → IsHolding (contents s'.file) (items ++ d.items)
unfolding open_or_create
later_run m k items d s s' h held e a =
    let r = add_each-IsDurable items held.st held.durable h in
    let at : open_or_create m k (contents held.st.file) ≡ ok s =
      ap (open_or_create m k) (sym held.is) ∙ e in
    let same : held.st ≡ s = ground (arith, open_file-own held.st held.durable, at) in
    let end : r.0 ≡ s' = ground (arith, r.1, ap (add_each items) same, a) in
    record {
      st = r.0;
      durable = r.2;
      is = ap (λ (t : Store). contents t.file) (sym end);
      holds =
          All-append (λ x. Store.test r.0 x ≡ some true) items d.items r.3
            (All_mono d.items r.4 held.holds);
    }

pub checkpoint_run :
    (file : List ℕ) (d : Disk) {bytes : List ℕ}
    → IsHolding d.read d.items
    → run_checkpoint file d.read ≡ ok bytes
    → IsHolding (contents bytes) d.items
unfolding run_checkpoint open_store read_file
checkpoint_run file d {bytes} held e =
    let c = checkpoint-IsDurable held.st held.durable in
    let at : run_checkpoint file (contents held.st.file) ≡ ok bytes =
      ap (run_checkpoint file) (sym held.is) ∙ e in
    let end : bytes ≡ c.0.file = elim (Bool-cases (length file == 0)) [
      | inl empty ↦ absurd (ground (arith, empty, at))
      | inr named ↦ ground (arith, named, open_file-own held.st held.durable, c.1, at)
    ] in
    record {
      st = c.0;
      durable = c.2;
      is = ap contents end;
      holds = All_mono d.items (λ old t. test-same held.st c.0 old c.3 ∙ t) held.holds;
    }
