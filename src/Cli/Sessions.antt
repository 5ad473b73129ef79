-- ===== src/Cli/Sessions.antt =====
-- One store file over many runs of the command line: store-add and checkpoint, and store-check.
pub mod Runs
pub mod Kept
pub mod Progress
use bloom_filter_jyy_0098_go.Base.{
  ℕ, zero, suc, ◌^◌, ◌<◌, ◌≡◌, ◌⊎◌, inl, inr, refl, sym, ap, ◌∙◌, subst, some, none, List, [], ◌∷◌,
  ◌++◌, length, arith, All, All-append, All-append_left, All-append_right, ok, true, Bool-cases,
  append_assoc, append-nil, ◌==◌, Result-cases, replicate,
}
use bloom_filter_jyy_0098_go.Filter
use bloom_filter_jyy_0098_go.Filter.{BloomFilter, new, bytes_for}
use bloom_filter_jyy_0098_go.Store
use bloom_filter_jyy_0098_go.Store.{
  Store, create, write_record, encode_record, rec_add, header, open_file,
}
use bloom_filter_jyy_0098_go.Store.Session.{IsDurable, create-IsDurable, checkpoint-IsDurable}
use bloom_filter_jyy_0098_go.Store.Holds.{open_file-own}
use bloom_filter_jyy_0098_go.Store.Crashes.Writes.{test-same, All_mono}
use bloom_filter_jyy_0098_go.Cli.{
  Read, missing, map_err, contents, all_items, add_each, open_or_create, open_store, run_store_add,
  run_checkpoint, run_store_check, read_file, from_store,
}
use bloom_filter_jyy_0098_go.Cli.Stores.{IsItem, add_each-IsDurable, checks}

-- What the file is, and the items and the numbers of bits of the runs of store-add that succeeded.
pub record Disk : Type 0 where
  pub read : Read
  pub items : List (List ℕ)
  pub sizes : List ℕ

-- Runs that succeed, each with flags of its own.
pub data Step (file : List ℕ) (s : Disk) : Disk → Type 0 where
  store_add_ran :
      (m k : ℕ) (values args : List (List ℕ)) {bytes : List ℕ} {n : ℕ}
      → run_store_add file m k values args s.read ≡ ok (bytes, n)
      → Step file s (record {
        read = contents bytes;
        items = all_items [] values args ++ s.items;
        sizes = m ∷ s.sizes;
      })
  checkpoint_ran :
      {bytes : List ℕ}
      → run_checkpoint file s.read ≡ ok bytes
      → Step file s (record s { read = contents bytes })

pub data Reach (file : List ℕ) (s : Disk) : Disk → Type 0 where
  here : Reach file s s
  later : {t u : Disk} → Reach file s t → Step file t u → Reach file s u

-- The file is that of a durable store that has the items.
pub record IsHolding (read : Read) (items : List (List ℕ)) : Type 0 where
  pub st : Store
  pub durable : IsDurable st
  pub is : read ≡ contents st.file
  pub holds : All (λ x. Store.test st x ≡ some true) items
