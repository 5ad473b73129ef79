-- ===== src/Cli/Tests.antt =====
-- The theorems on the commands at concrete arguments.
use bloom_filter_jyy_0098_go.Base.{
  replicate, ℕ, ◌≡◌, refl, List, [], ◌∷◌, ◌++◌, ok, none, true, arith, All,
}
use mathlib.Core.List.{mem-cons_self}
use bloom_filter_jyy_0098_go.Filter
use bloom_filter_jyy_0098_go.Filter.{BloomFilter}
use bloom_filter_jyy_0098_go.Filter.Valid.{IsValid, new-IsValid}
use bloom_filter_jyy_0098_go.Store
use bloom_filter_jyy_0098_go.Store.Session.{IsDurable, create-IsDurable, checkpoint-IsDurable}
use bloom_filter_jyy_0098_go.Cli.{
  contents, missing, load_or_new, all_items, run_add, run_check, run_store_add, run_store_check,
  reorder_flags, is_separator, open_or_create, add_each, run_checkpoint, open_store, read_file,
}
use bloom_filter_jyy_0098_go.Cli.Dispatch.{dispatch, check, store_check, check_name, store_name}
use bloom_filter_jyy_0098_go.Cli.Fields.{IsField}
use bloom_filter_jyy_0098_go.Cli.Filters.{run_check-run_add}
use bloom_filter_jyy_0098_go.Cli.Stores.{add_each-IsDurable}
use bloom_filter_jyy_0098_go.Cli.Sessions.{Disk, Reach, here, later, store_add_ran, checkpoint_ran}
use bloom_filter_jyy_0098_go.Cli.Sessions.Kept.{run_store_check-Reach}
use bloom_filter_jyy_0098_go.Store.Holds.{open_file-own}
use bloom_filter_jyy_0098_go.Cli.Sessions.Progress.{run_store_add-Reach}

abbrev file : List ℕ
file = b'f' ∷ []

abbrev fig : List ℕ
fig = b'f' ∷ b'i' ∷ b'g' ∷ []

abbrev nut : List ℕ
nut = b'n' ∷ b'u' ∷ b't' ∷ []

abbrev minus_f : List ℕ
minus_f = b'-' ∷ b'f' ∷ []

fig_last : reorder_flags (fig ∷ minus_f ∷ file ∷ []) ≡ minus_f ∷ file ∷ fig ∷ []
unfolding reorder_flags
fig_last = refl

fig-IsField : IsField fig
unfolding is_separator
fig-IsField = record { some_bytes = omega arith; whole = (refl, (refl, (refl, tt))) }

nut-IsField : IsField nut
unfolding is_separator
nut-IsField = record { some_bytes = omega arith; whole = (refl, (refl, (refl, tt))) }

abbrev default_filter : BloomFilter
default_filter = record { m = 65536; k = 7; bits = replicate (Filter.bytes_for 65536) 0 }

loads : load_or_new missing ≡ ok default_filter
unfolding load_or_new Filter.new
loads = refl

default-IsValid : IsValid default_filter
unfolding Filter.new
default-IsValid = new-IsValid 65536 7 (omega arith) (omega arith) refl

run_check-run_add_example :
    (bytes : List ℕ) × (n : ℕ) × (run_add file [] (fig ∷ nut ∷ []) missing true ≡ ok (bytes, n))
    × (run_check file fig (contents bytes) ≡ ok true)
unfolding all_items
run_check-run_add_example =
    run_check-run_add file fig [] (fig ∷ nut ∷ []) missing default_filter (omega arith)
      (omega arith) loads default-IsValid (record { m_32 = omega arith; k_32 = omega arith })
      mem-cons_self

opened : (s : Store.Store) × (Store.create 64 7 ≡ ok s) × IsDurable s
opened = create-IsDurable 64 (omega arith) (omega arith)

creates : open_or_create 64 7 missing ≡ ok opened.0
unfolding open_or_create
creates = rw (opened.1) refl

-- A first run of store-add, and a checkpoint after it.
kept : (s : Store.Store) × (add_each (fig ∷ nut ∷ []) opened.0 ≡ ok s) × IsDurable s
kept =
    let r =
      add_each-IsDurable (fig ∷ nut ∷ []) opened.0 opened.2
        ((omega arith, omega arith), ((omega arith, omega arith), tt)) in
    (r.0, r.1, r.2)

snapped : (s : Store.Store) × (Store.checkpoint kept.0 ≡ (s, none)) × IsDurable s
snapped = let c = checkpoint-IsDurable kept.0 kept.2 in (c.0, c.1, c.2)

added : run_store_add file 64 7 [] (fig ∷ nut ∷ []) missing ≡ ok (kept.0.file, 2)
unfolding run_store_add all_items
added = rw (run_store_add, creates, kept.1) refl

checkpointed : run_checkpoint file (contents kept.0.file) ≡ ok snapped.0.file
unfolding run_checkpoint open_store read_file
checkpointed = ground (arith, open_file-own kept.0 kept.2, snapped.1)

after_both : Disk
after_both = record { read = contents snapped.0.file; items = fig ∷ nut ∷ []; sizes = 64 ∷ [] }

both_runs : Reach file (record { read = missing; items = []; sizes = [] }) after_both
unfolding after_both all_items
both_runs =
    later (later here (store_add_ran 64 7 [] (fig ∷ nut ∷ []) added)) (checkpoint_ran checkpointed)

run_store_check-Reach_example :
    All (λ x. run_store_check file x after_both.read ≡ ok true) after_both.items
unfolding after_both
run_store_check-Reach_example =
    run_store_check-Reach file after_both (omega arith) both_runs
      (((omega arith, omega arith), ((omega arith, omega arith), tt)), (omega arith, tt))

run_store_add-Reach_example :
    (bytes : List ℕ) × (n : ℕ) × (run_store_add file 32 3 [] (file ∷ []) after_both.read
      ≡ ok (bytes, n))
    × All
        (λ x. run_store_check file x (contents bytes) ≡ ok true)
        (all_items [] [] (file ∷ []) ++ after_both.items)
unfolding after_both all_items
run_store_add-Reach_example =
    run_store_add-Reach 32 3 (omega arith) (omega arith) (omega arith) (omega arith) file []
      (file ∷ []) after_both (omega arith) (omega arith) both_runs
      (((omega arith, omega arith), ((omega arith, omega arith), tt)), (omega arith, tt))
      ((omega arith, omega arith), tt)

-- nut check fig -f f
dispatch_runs :
    dispatch (nut ∷ check_name ∷ fig ∷ minus_f ∷ file ∷ []) ≡ ok (check, minus_f ∷ file ∷ fig ∷ [])
unfolding dispatch
dispatch_runs = refl

-- store-check is not check.
dispatch_store : dispatch (nut ∷ store_name check_name ∷ []) ≡ ok (store_check, [])
unfolding dispatch
dispatch_store = refl
