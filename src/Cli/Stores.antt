-- ===== src/Cli/Stores.antt =====
-- `store-add` and then `store-check` of main.go, on the file of a store.
use bloom_filter_jyy_0098_go.Base.{
  panic, Bool, ℕ, ◌<◌, ◌≡◌, refl, ap, Option, List, [], ◌∷◌, length, ok, some, none, arith, true,
  All, ne→==, Result,
}
use bloom_filter_jyy_0098_go.Store
use bloom_filter_jyy_0098_go.Store.{Store, parse_record, write_record, open_file}
use bloom_filter_jyy_0098_go.Store.Log.{IsEntry, added}
use bloom_filter_jyy_0098_go.Store.Session.{IsDurable, add-IsDurable}
use bloom_filter_jyy_0098_go.Store.Holds.{test-add_durable, open_file-own}
use bloom_filter_jyy_0098_go.Cli.{
  CliError, Read, contents, run_store_add, run_store_check, open_or_create, add_each, open_store,
  read_file, all_items,
}

-- An item that is not empty and that the format of a store can hold.
abbrev pub IsItem : List ℕ → Type 0
IsItem x = (0 < length x) × IsEntry (added x)

pub add_each-IsDurable :
    (items : List (List ℕ)) (s : Store)
    → IsDurable s
    → All IsItem items
    → (s' : Store) × (add_each items s ≡ ok s')
      × IsDurable s'
      × All (λ x. Store.test s' x ≡ some true) items
      × ((old : List ℕ) → Store.test s old ≡ some true → Store.test s' old ≡ some true)
unfolding add_each
add_each-IsDurable [] s d h = (s, refl, d, tt, λ old t. t)
add_each-IsDurable (x ∷ xs) s d h =
    let a = add-IsDurable s d x h.0.1 in
    let rest = add_each-IsDurable xs a.0 a.2 h.1 in
    (
      rest.0,
      rw (add_each, a.1) rest.1,
      rest.2,
      (rest.4 x a.3, rest.3),
      λ old t. rest.4 old (test-add_durable s a.0 old x d a.1 t),
    )

-- What `store-check` makes of the answer of `Test`.
abbrev answered : Option Bool → Result CliError Bool
answered answer = elim answer [ none ↦ panic | some b ↦ ok b ]

pub check-own :
    (file item : List ℕ) (s : Store)
    → 0 < length file
    → 0 < length item
    → IsDurable s
    → Store.test s item ≡ some true
    → run_store_check file item (contents s.file) ≡ ok true
unfolding run_store_check open_store read_file
check-own file item s hf hi d t =
    rw
      (
        run_store_check,
        ne→== (length file) 0 (λ q. omega (arith, q, hf)),
        ne→== (length item) 0 (λ q. omega (arith, q, hi)),
        open_file-own s d,
      )
      (ap answered t)

pub checks :
    (file : List ℕ) (items : List (List ℕ)) (s : Store)
    → 0 < length file
    → IsDurable s
    → All IsItem items
    → All (λ x. Store.test s x ≡ some true) items
    → All (λ x. run_store_check file x (contents s.file) ≡ ok true) items
checks file [] s hf d h t = tt
checks file (x ∷ xs) s hf d h t = (check-own file x s hf h.0.0 d t.0, checks file xs s hf d h.1 t.1)

-- When `store-add` of at least one item, with a file name that is not empty, creates or opens a
-- store that is durable, and the format can hold each of the items, none of which is empty, it
-- succeeds, and `store-check` on the file reports every one of them.
run_store_check-run_store_add :
    (file : List ℕ) (m k : ℕ) (values args : List (List ℕ)) (read : Read) (s : Store)
    → 0 < length file
    → 0 < length (all_items [] values args)
    → open_or_create m k read ≡ ok s
    → IsDurable s
    → All IsItem (all_items [] values args)
    → (bytes : List ℕ) × (n : ℕ) × (run_store_add file m k values args read ≡ ok (bytes, n))
      × All (λ x. run_store_check file x (contents bytes) ≡ ok true) (all_items [] values args)
unfolding run_store_add
run_store_check-run_store_add file m k values args read s hf hi opened d h =
    let items = all_items [] values args in
    let r = add_each-IsDurable items s d h in
    (
      r.0.file,
      length items,
      rw
          (
            run_store_add,
            ne→== (length file) 0 (λ q. omega (arith, q, hf)),
            ne→== (length items) 0 (λ q. omega (arith, q, hi)),
            opened,
            r.1,
          )
          refl,
      checks file items r.0 hf r.2 h r.3,
    )
