-- ===== src/Store/Crashes/Keeping.antt =====
-- What a store keeps through any run of sessions and crashes.
use bloom_filter_jyy_0098_go.Store.Crashes.{
  System, Step, Reach, add_returned, checkpoint_returned, restarted, crash_in_add,
  crash_in_checkpoint, here, later,
}
use bloom_filter_jyy_0098_go.Base.{
  ◌≡◌, ap, sym, ◌∙◌, subst, ◌∷◌, ◌++◌, take, arith, All, ok, Result,
}
use bloom_filter_jyy_0098_go.Codec.{marshal}
use bloom_filter_jyy_0098_go.Store
use bloom_filter_jyy_0098_go.Store.{
  Store, StoreError, open_file, encode_record, rec_add, rec_checkpoint, test, close, checkpoint,
  write_record,
}
use bloom_filter_jyy_0098_go.Store.Log.{added, IsEntry}
use bloom_filter_jyy_0098_go.Store.Holds.{open_file-own}
use bloom_filter_jyy_0098_go.Store.Crashes.Writes.{
  IsKeeping, kept, added_keeps, checkpoint_keeps, crash_in_add_keeps, crash_in_checkpoint_keeps,
}

-- Whatever a step starts from, it is the store of the invariant.
same_store : {r : Result StoreError Store} {st st' : Store} → r ≡ ok st → r ≡ ok st' → st' ≡ st
same_store {r} {st} {st'} p q =
    let both : ◌≡◌ {A = Result StoreError Store} (ok st') (ok st) = sym q ∙ p in
    ground (arith, both)

-- Every item that was asked for fits the format.
abbrev pub AllFit : System → Type 0
AllFit s = All (λ item. IsEntry (added item)) s.asked

Step-AllFit : {s t : System} → Step s t → AllFit t → AllFit s
Step-AllFit (add_returned item e a) h = h.1
Step-AllFit (checkpoint_returned e c) h = h
Step-AllFit (restarted e) h = h
Step-AllFit (crash_in_add item n e) h = h.1
Step-AllFit (crash_in_checkpoint n e) h = h

Step-IsKeeping :
    {s t : System}
    → Step s t
    → AllFit t
    → IsKeeping s.opened s.added_items
    → IsKeeping t.opened t.added_items
unfolding close
Step-IsKeeping {s} (add_returned item {st} {st'} e run) fit k =
    let a = added_keeps s.added_items k.st k.durable k.holds item fit.0 in
    let from = same_store k.is_ok e in
    let same : a.0 ≡ st' = ground (arith, a.1, ap (λ (g : Store). Store.add g item) from, run) in
    subst (λ (g : Store). IsKeeping (ok g) (item ∷ s.added_items)) same a.2
Step-IsKeeping {s} (checkpoint_returned {st} {st'} e run) fit k =
    let c = checkpoint_keeps s.added_items k.st k.durable k.holds in
    let same : c.0 ≡ st' = ground (arith, c.1, ap checkpoint (same_store k.is_ok e), run) in
    subst (λ (g : Store). IsKeeping (ok g) s.added_items) same c.2
Step-IsKeeping {s} (restarted {st} e) fit k =
    subst (λ (g : Store). IsKeeping (open_file g.file) s.added_items) (sym (same_store k.is_ok e))
      (subst (λ r. IsKeeping r s.added_items) (sym (open_file-own k.st k.durable))
        (kept s.added_items k.st k.durable k.holds k.st k.durable (λ old t. t)))
Step-IsKeeping {s} (crash_in_add item n {st} e) fit k =
    subst
      (λ (g : Store).
        IsKeeping (open_file (g.file ++ take n (encode_record rec_add item))) s.added_items)
      (sym (same_store k.is_ok e))
      (crash_in_add_keeps s.added_items k.st k.durable k.holds item n fit.0)
Step-IsKeeping {s} (crash_in_checkpoint n {st} e) fit k =
    subst
      (λ (g : Store).
        IsKeeping (open_file (g.file ++ take n (encode_record rec_checkpoint (marshal g.filter))))
          s.added_items)
      (sym (same_store k.is_ok e))
      (crash_in_checkpoint_keeps s.added_items k.st k.durable k.holds n)

-- From a durable store that has the items added so far, through any sequence of calls of `Add` (of items
-- that the format can hold) and `Checkpoint`, restarts, and crashes that leave any number of bytes of the
-- record that was being written: `Open` always succeeds, the store is durable, and every item whose
-- `Add` returned tests as present.
pub Reach-IsKeeping :
    {s t : System}
    → IsKeeping s.opened s.added_items
    → AllFit t
    → Reach s t
    → IsKeeping t.opened t.added_items
Reach-IsKeeping k fit here = k
Reach-IsKeeping k fit (later run step) =
    Step-IsKeeping step fit (Reach-IsKeeping k (Step-AllFit step fit) run)
