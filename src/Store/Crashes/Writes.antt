-- ===== src/Store/Crashes/Writes.antt =====
-- What one call of a session, or a crash in it, keeps of a store.
use bloom_filter_jyy_0098_go.Base.{
  ℕ, ◌-◌, ◌≤◌, ◌≡◌, refl, ap, sym, ◌∙◌, subst, some, none, List, [], ◌∷◌, ◌++◌, length, take, arith,
  All, ok, true, Result, append-nil, take_beyond, take_nil, inl, inr, ltb, Bool-cases, ltb→lt,
}
use bloom_filter_jyy_0098_go.Codec.{marshal}
use bloom_filter_jyy_0098_go.Store
use bloom_filter_jyy_0098_go.Store.{
  Store, StoreError, open_file, encode_record, rec_add, rec_checkpoint, test, close, checkpoint,
  write_record,
}
use bloom_filter_jyy_0098_go.Store.Log.{Entry, added, snapshot, encode_entry, IsEntry, meaning}
use bloom_filter_jyy_0098_go.Store.Recovery.{store_of}
use bloom_filter_jyy_0098_go.Store.Session.{
  IsDurable, add-IsDurable, checkpoint-IsDurable, open_file-torn, Storable-of,
}
use bloom_filter_jyy_0098_go.Store.Holds.{filter-IsDurable, test-add_durable, open_file-own}

-- The store is open and durable, and has each item of the list.
pub record IsKeeping (opened : Result StoreError Store) (items : List (List ℕ)) : Type 0 where
  pub st : Store
  pub is_ok : opened ≡ ok st
  pub durable : IsDurable st
  pub holds : All (λ item. test st item ≡ some true) items

pub All_mono :
    {A : Type 0} {P Q : A → Type 0} (xs : List A) → ((x : A) → P x → Q x) → All P xs → All Q xs
All_mono [] f h = tt
All_mono (x ∷ xs) f h = (f x h.0, All_mono xs f h.1)

take_whole : (n : ℕ) (bytes : List ℕ) → length bytes ≤ n → take n bytes ≡ bytes
take_whole n bytes h =
    ap (take n) (sym (append-nil bytes))
    ∙ take_beyond n bytes [] h
    ∙ ap (λ t. bytes ++ t) (take_nil (n - length bytes))
    ∙ append-nil bytes

open-IsDurable : (st : Store) → IsDurable st → st.is_open ≡ true
unfolding store_of
open-IsDurable st d = ap (λ (t : Store). t.is_open) d.is

-- The files that `Add` and `Checkpoint` leave when their writes are whole.
file-add :
    (st st' : Store) (item : List ℕ)
    → IsDurable st
    → Store.add st item ≡ some (st', none)
    → st'.file ≡ st.file ++ encode_record rec_add item
unfolding Store.add write_record
file-add st st' item d a =
    let f = filter-IsDurable st d in ground (arith, f.1, open-IsDurable st d, a)

file-checkpoint :
    (st st' : Store)
    → IsDurable st
    → checkpoint st ≡ (st', none)
    → st'.file ≡ st.file ++ encode_record rec_checkpoint (marshal st.filter)
unfolding checkpoint write_record
file-checkpoint st st' d c = ground (arith, open-IsDurable st d, c)

pub test-same :
    (st st' : Store) (item : List ℕ) → st'.filter ≡ st.filter → test st' item ≡ test st item
unfolding test
test-same st st' item e = rw e refl

fewer :
    (r : Result StoreError Store) (item : List ℕ) (items : List (List ℕ))
    → IsKeeping r (item ∷ items)
    → IsKeeping r items
fewer r item items k = record {
  st = k.st;
  is_ok = k.is_ok;
  durable = k.durable;
  holds = (k.holds).1;
}

module _ (items : List (List ℕ)) (st : Store) (d : IsDurable st)
    (holds : All (λ item. test st item ≡ some true) items) where
  pub kept :
      (st' : Store)
      → IsDurable st'
      → ((item : List ℕ) → test st item ≡ some true → test st' item ≡ some true)
      → IsKeeping (ok st') items
  kept st' d' keeps = record {
    st = st';
    is_ok = refl;
    durable = d';
    holds = All_mono items keeps holds;
  }

  pub added_keeps :
      (item : List ℕ)
      → IsEntry (added item)
      → (st' : Store) × (Store.add st item ≡ some (st', none))
        × IsKeeping (ok st') (item ∷ items)
        × (open_file (st.file ++ encode_record rec_add item) ≡ ok st')
  added_keeps item fits =
      let a = add-IsDurable st d item fits in
      let k = kept a.0 a.2 (λ old t. test-add_durable st a.0 old item d a.1 t) in
      (
        a.0,
        a.1,
        record {
          st = a.0;
          is_ok = refl;
          durable = a.2;
          holds = (a.3, All_mono items (λ old t. test-add_durable st a.0 old item d a.1 t) holds);
        },
        ap open_file (sym (file-add st a.0 item d a.1)) ∙ open_file-own a.0 a.2,
      )

  pub checkpoint_keeps :
      (st' : Store) × (checkpoint st ≡ (st', none))
      × IsKeeping (ok st') items
      × (open_file (st.file ++ encode_record rec_checkpoint (marshal st.filter)) ≡ ok st')
  checkpoint_keeps =
      let c = checkpoint-IsDurable st d in
      (
        c.0,
        c.1,
        kept c.0 c.2 (λ old t. test-same st c.0 old c.3 ∙ t),
        ap open_file (sym (file-checkpoint st c.0 d c.1)) ∙ open_file-own c.0 c.2,
      )

  -- A crash in the write of a record loses the record or keeps it whole.
  crash_keeps :
      (e : Entry) (n : ℕ)
      → IsEntry e
      → IsKeeping (open_file (st.file ++ encode_entry e)) items
      → IsKeeping (open_file (st.file ++ take n (encode_entry e))) items
  crash_keeps e n fits after = elim (Bool-cases (ltb n (length (encode_entry e)))) [
    | inl short ↦
        subst (λ r. IsKeeping r items)
          (sym (open_file-torn st d e n fits (ltb→lt n (length (encode_entry e)) short)))
          (kept st d (λ old t. t))
    | inr whole ↦
        subst (λ t. IsKeeping (open_file (st.file ++ t)) items)
          (sym (take_whole n (encode_entry e) (ground (arith, whole)))) after
  ]

  pub crash_in_add_keeps :
      (item : List ℕ) (n : ℕ)
      → IsEntry (added item)
      → IsKeeping (open_file (st.file ++ take n (encode_record rec_add item))) items
  crash_in_add_keeps item n fits =
      let a = added_keeps item fits in
      crash_keeps (added item) n fits
        (subst (λ r. IsKeeping r items) (sym a.3) (fewer (ok a.0) item items a.2))

  pub crash_in_checkpoint_keeps :
      (n : ℕ)
      → IsKeeping
          (open_file (st.file ++ take n (encode_record rec_checkpoint (marshal st.filter))))
          items
  unfolding store_of
  crash_in_checkpoint_keeps n =
      let c = checkpoint_keeps in
      let same : st.filter ≡ some (meaning d.m d.log) = ap (λ (t : Store). t.filter) d.is in
      subst
        (λ f.
          IsKeeping (open_file (st.file ++ take n (encode_record rec_checkpoint (marshal f))))
            items)
        (sym same)
        (crash_keeps (snapshot (meaning d.m d.log)) n
          (Storable-of (meaning d.m d.log) d.valid d.fits)
          (subst
            (λ f. IsKeeping (open_file (st.file ++ encode_record rec_checkpoint (marshal f))) items)
            same (subst (λ r. IsKeeping r items) (sym c.3) c.2)))
