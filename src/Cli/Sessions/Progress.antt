-- ===== src/Cli/Sessions/Progress.antt =====
-- Runs of store-add that succeed.
use bloom_filter_jyy_0098_go.Base.{
  ℕ, ◌^◌, ◌<◌, ◌≡◌, inl, inr, refl, ap, ◌∙◌, List, [], ◌∷◌, length, arith, All, ok, ne→==, ◌++◌,
  All-append, true,
}
use bloom_filter_jyy_0098_go.Filter
use bloom_filter_jyy_0098_go.Filter.{BloomFilter}
use bloom_filter_jyy_0098_go.Store.{Store}
use bloom_filter_jyy_0098_go.Store.Log.{meaning}
use bloom_filter_jyy_0098_go.Store.Recovery.{store_of}
use bloom_filter_jyy_0098_go.Store.Session.{IsDurable}
use bloom_filter_jyy_0098_go.Store.Written.{IsWritten, create-IsWritten, add-IsWritten}
use bloom_filter_jyy_0098_go.Store.Holds.{open_file-own}
use bloom_filter_jyy_0098_go.Cli.{
  map_err, all_items, add_each, open_or_create, run_store_add, from_store, missing, contents,
  run_store_check,
}
use bloom_filter_jyy_0098_go.Cli.Stores.{IsItem}
use bloom_filter_jyy_0098_go.Cli.Sessions.{Disk, Reach, later, store_add_ran}
use bloom_filter_jyy_0098_go.Cli.Sessions.Kept.{
  IsSettled, AllFit, Reach-IsSettled, run_store_check-Reach,
}

add_each-IsWritten :
    (items : List (List ℕ)) (s : Store) (f : BloomFilter)
    → IsWritten s f
    → All IsItem items
    → (s' : Store) × (add_each items s ≡ ok s')
unfolding add_each
add_each-IsWritten [] s f w h = (s, refl)
add_each-IsWritten (x ∷ xs) s f w h =
    let a = add-IsWritten s f x w h.0.1 in
    let rest = add_each-IsWritten xs a.0 (Filter.add f x) a.2 h.1 in
    (rest.0, rw (add_each, a.1) rest.1)

durable-IsWritten : (s : Store) (d : IsDurable s) → IsWritten s (meaning d.m d.log)
unfolding store_of
durable-IsWritten s d = record {
  m = d.m;
  log = d.log;
  pos = d.pos;
  small = d.small;
  written = d.written;
  valid = d.valid;
  fits = d.fits;
  is = d.is;
}

module _ (m k : ℕ) (m_pos : 0 < m) (m_small : m < 2 ^ 32) (k_pos : 0 < k)
    (k_small : k < 2 ^ 32) where
  opens :
      (d : Disk)
      → IsSettled d
      → (s : Store) × (f : BloomFilter) × (open_or_create m k d.read ≡ ok s) × IsWritten s f
  unfolding open_or_create
  opens d (inl (absent, nothing)) =
      let c = create-IsWritten m k m_pos m_small k_pos k_small in
      (c.0, c.1, ap (open_or_create m k) absent ∙ ap (map_err from_store) c.2, c.4)
  opens d (inr held) = (
    held.st,
    meaning (held.durable).m (held.durable).log,
    ap (open_or_create m k) held.is ∙ ap (map_err from_store) (open_file-own held.st held.durable),
    durable-IsWritten held.st held.durable,
  )

  run_store_add-IsSettled :
      (file : List ℕ) (values args : List (List ℕ)) (d : Disk)
      → 0 < length file
      → 0 < length (all_items [] values args)
      → IsSettled d
      → All IsItem (all_items [] values args)
      → (bytes : List ℕ) × (run_store_add file m k values args d.read
          ≡ ok (bytes, length (all_items [] values args)))
  unfolding run_store_add
  run_store_add-IsSettled file values args d hf hi settled h =
      let items = all_items [] values args in
      let o = opens d settled in
      let r = add_each-IsWritten items o.0 o.1 o.3 h in
      (
        r.0.file,
        rw
            (
              run_store_add,
              ne→== (length file) 0 (λ q. omega (arith, q, hf)),
              ne→== (length items) 0 (λ q. omega (arith, q, hi)),
              o.2,
              r.1,
            )
            refl,
      )

  -- From no file, after any sequence of successful runs of `store-add` and `checkpoint` on one file with
  -- a name that is not empty, each with flags of its own, where every m is below 2^32, and every item is
  -- not empty and fits the format: a further run of `store-add` of at least one such item, with
  -- 0 < m < 2^32 and 0 < k < 2^32, succeeds, and then `store-check` reports every item of this run and of
  -- the runs before.
  pub run_store_add-Reach :
      (file : List ℕ) (values args : List (List ℕ)) (d : Disk)
      → 0 < length file
      → 0 < length (all_items [] values args)
      → Reach file (record { read = missing; items = []; sizes = [] }) d
      → AllFit d
      → All IsItem (all_items [] values args)
      → (bytes : List ℕ) × (n : ℕ) × (run_store_add file m k values args d.read ≡ ok (bytes, n))
        × All
            (λ x. run_store_check file x (contents bytes) ≡ ok true)
            (all_items [] values args ++ d.items)
  run_store_add-Reach file values args d hf hi run fit h =
      let items = all_items [] values args in
      let r =
        run_store_add-IsSettled file values args d hf hi
          (Reach-IsSettled (inl (refl, refl)) fit run) h in
      let next : Disk = record {
        read = contents r.0;
        items = items ++ d.items;
        sizes = m ∷ d.sizes;
      } in
      (
        r.0,
        length items,
        r.1,
        run_store_check-Reach file next hf (later run (store_add_ran m k values args r.1))
            (All-append IsItem items d.items h fit.0, (m_small, fit.1)),
      )
