-- ===== src/Store/Crashes.antt =====
-- A store file over many sessions: calls of `Add` and `Checkpoint`, restarts, and crashes at any byte of
-- a write.
pub mod Writes
pub mod Keeping
use bloom_filter_jyy_0098_go.Base.{
  ℕ, zero, suc, ◌+◌, ◌-◌, ◌<◌, ◌≤◌, ◌≡◌, refl, ap, sym, ◌∙◌, subst, Option, some, none, List, [],
  ◌∷◌, ◌++◌, length, take, arith, All, ok, true, Result, append-nil, take_beyond, take_nil, inl,
  inr, ltb, Bool-cases, ltb→lt,
}
use bloom_filter_jyy_0098_go.Filter
use bloom_filter_jyy_0098_go.Codec.{marshal}
use bloom_filter_jyy_0098_go.Store
use bloom_filter_jyy_0098_go.Store.{
  Store, StoreError, open_file, encode_record, rec_add, rec_checkpoint, test, close, checkpoint,
  write_record,
}
use bloom_filter_jyy_0098_go.Store.Log.{Entry, added, snapshot, encode_entry, IsEntry, meaning}
use bloom_filter_jyy_0098_go.Store.Recovery.{store_of}
use bloom_filter_jyy_0098_go.Store.Session.{
  IsDurable, add-IsDurable, checkpoint-IsDurable, open_file-torn, Storable-of,
}
use bloom_filter_jyy_0098_go.Store.Holds.{
  filter-IsDurable, filter-add, test-add_durable, open_file-own,
}

-- What the last `Create` or `Open` and the calls since have left; the items that `Add` was asked for; and
-- those of its calls that returned without an error.
pub record System : Type 0 where
  pub opened : Result StoreError Store
  pub asked : List (List ℕ)
  pub added_items : List (List ℕ)

-- A crash leaves some prefix of the record that was being written; the next session opens the file.
pub data Step (s : System) : System → Type 0 where
  add_returned :
      (item : List ℕ) {st st' : Store}
      → s.opened ≡ ok st
      → Store.add st item ≡ some (st', none)
      → Step s
          (record { opened = ok st'; asked = item ∷ s.asked; added_items = item ∷ s.added_items })
  checkpoint_returned :
      {st st' : Store}
      → s.opened ≡ ok st
      → checkpoint st ≡ (st', none)
      → Step s (record s { opened = ok st' })
  restarted :
      {st : Store} → s.opened ≡ ok st → Step s (record s { opened = open_file (close st).file })
  crash_in_add :
      (item : List ℕ) (n : ℕ) {st : Store}
      → s.opened ≡ ok st
      → Step s (record {
        opened = open_file (st.file ++ take n (encode_record rec_add item));
        asked = item ∷ s.asked;
        added_items = s.added_items;
      })
  crash_in_checkpoint :
      (n : ℕ) {st : Store}
      → s.opened ≡ ok st
      → Step s (record s {
        opened = open_file (st.file ++ take n (encode_record rec_checkpoint (marshal st.filter)));
      })

pub data Reach (s : System) : System → Type 0 where
  here : Reach s s
  later : {t u : System} → Reach s t → Step t u → Reach s u
