-- ===== src/Cli/Sessions/Kept.antt =====
-- What store-check reports after any runs of store-add and checkpoint.
use bloom_filter_jyy_0098_go.Base.{
  ℕ, ◌^◌, ◌<◌, ◌≡◌, ◌⊎◌, inl, inr, refl, sym, ap, ◌∙◌, subst, List, [], ◌++◌, length, arith, All,
  All-append_left, All-append_right, ok, true, Bool-cases, ◌==◌,
}
use bloom_filter_jyy_0098_go.Cli.{
  missing, contents, all_items, open_or_create, open_store, run_checkpoint, run_store_check,
  read_file,
}
use bloom_filter_jyy_0098_go.Cli.Stores.{IsItem, checks}
use bloom_filter_jyy_0098_go.Cli.Sessions.{
  Disk, IsHolding, Step, store_add_ran, checkpoint_ran, Reach, here, later,
}
use bloom_filter_jyy_0098_go.Cli.Sessions.Runs.{added_parts, first_run, later_run, checkpoint_run}

-- There is no file yet, or that of a durable store with the items.
abbrev pub IsSettled : Disk → Type 0
IsSettled d = ((d.read ≡ missing) × (d.items ≡ [])) ⊎ IsHolding d.read d.items

checkpoint-missing : (file : List ℕ) {bytes : List ℕ} → run_checkpoint file missing ≡ ok bytes → ⊥
unfolding run_checkpoint open_store read_file
checkpoint-missing file e = elim (Bool-cases (length file == 0)) [
  | inl empty ↦ ground (arith, empty, e)
  | inr named ↦ ground (arith, named, e)
]

-- Each item is not empty and fits the format, and so does each number of bits.
abbrev pub AllFit : Disk → Type 0
AllFit d = All IsItem d.items × All (λ m. m < 2 ^ 32) d.sizes

Step-IsSettled : {file : List ℕ} {s t : Disk} → Step file s t → AllFit t → IsSettled s → IsSettled t
Step-IsSettled {file} {s} (store_add_ran m k values args e) fit settled =
    let items = all_items [] values args in
    let fits = All-append_left IsItem items s.items fit.0 in
    let p = added_parts file m k values args s.read e in
    let done : IsHolding (contents p.1.file) (items ++ s.items) = elim settled [
      | inl (absent, nothing) ↦
          subst (λ old. IsHolding (contents p.1.file) (items ++ old)) (sym nothing)
            (first_run m k items p.0 p.1 fit.1.0 fits (ap (open_or_create m k) (sym absent) ∙ p.2)
              p.3)
      | inr held ↦ later_run m k items s p.0 p.1 fits held p.2 p.3
    ] in
    inr (subst (λ b. IsHolding (contents b) (items ++ s.items)) (sym p.4) done)
Step-IsSettled {file} {s} (checkpoint_ran e) fit settled = elim settled [
  | inl (absent, nothing) ↦
      absurd (checkpoint-missing file (ap (run_checkpoint file) (sym absent) ∙ e))
  | inr held ↦ inr (checkpoint_run file s held e)
]

Step-AllFit : {file : List ℕ} {s t : Disk} → Step file s t → AllFit t → AllFit s
Step-AllFit {s = s} (store_add_ran m k values args e) fit =
    (All-append_right IsItem (all_items [] values args) s.items fit.0, fit.1.1)
Step-AllFit (checkpoint_ran e) fit = fit

pub Reach-IsSettled :
    {file : List ℕ} {s t : Disk} → IsSettled s → AllFit t → Reach file s t → IsSettled t
Reach-IsSettled settled fit here = settled
Reach-IsSettled settled fit (later run step) =
    Step-IsSettled step fit (Reach-IsSettled settled (Step-AllFit step fit) run)

-- From no file, through any sequence of successful runs of `store-add` and `checkpoint` on one file with
-- a name that is not empty, each with flags of its own, where every m is below 2^32, and every item is not
-- empty and fits the format: `store-check` reports every item of every one of the runs of `store-add`.
pub run_store_check-Reach :
    (file : List ℕ) (d : Disk)
    → 0 < length file
    → Reach file (record { read = missing; items = []; sizes = [] }) d
    → AllFit d
    → All (λ x. run_store_check file x d.read ≡ ok true) d.items
run_store_check-Reach file d hf run fit = elim (Reach-IsSettled (inl (refl, refl)) fit run) [
  | inl (absent, nothing) ↦
      subst (λ old. All (λ x. run_store_check file x d.read ≡ ok true) old) (sym nothing) tt
  | inr held ↦
      subst (λ r. All (λ x. run_store_check file x r ≡ ok true) d.items) (sym held.is)
        (checks file d.items held.st hf held.durable fit.0 held.holds)
]
