-- ===== src/Counting/Multiset/Runs.antt =====
-- Runs of `Add` and `Remove` on a counting filter, in which only items that are there are removed.
use bloom_filter_jyy_0098_go.Base.{
  refl, sym, suc, ◌∙◌, ℕ, ◌≡◌, sym, subst, List, [], ◌∷◌, ◌++◌, true, ok, err, All, All-append,
  All-append_left, All-append_right, append_assoc, arith,
}
use bloom_filter_jyy_0098_go.Counting.{CountingFilter, CountingError, add, remove, test}
use bloom_filter_jyy_0098_go.Counting.Tallies.{IsDistinct}
use bloom_filter_jyy_0098_go.Counting.Multiset.{IsTally, add-IsTally, test-IsTally, remove-IsTally}

-- The filter, the items that are in it, those that `Add` was asked for, and how many calls of
-- `Remove` reported an underflow.
pub record Session : Type 0 where
  pub filter : CountingFilter
  pub items : List (List ℕ)
  pub asked : List (List ℕ)
  pub underflows : ℕ

pub data Step (s : Session) : Session → Type 0 where
  add_returned :
      (item : List ℕ) {g : CountingFilter}
      → add s.filter item ≡ ok g
      → Step s (record s { filter = g; items = item ∷ s.items; asked = item ∷ s.asked })
  -- `Add` that reports an overflow changes nothing.
  add_refused :
      (item : List ℕ) {e : CountingError}
      → add s.filter item ≡ err e
      → Step s (record s { asked = item ∷ s.asked })
  remove_returned :
      (before after : List (List ℕ)) (item : List ℕ) {g : CountingFilter}
      → s.items ≡ before ++ item ∷ after
      → remove s.filter item ≡ ok g
      → Step s (record s { filter = g; items = before ++ after })
  remove_refused :
      (before after : List (List ℕ)) (item : List ℕ) {e : CountingError}
      → s.items ≡ before ++ item ∷ after
      → remove s.filter item ≡ err e
      → Step s (record s { underflows = suc s.underflows })

pub data Reach (s : Session) : Session → Type 0 where
  here : Reach s s
  later : {t u : Session} → Reach s t → Step t u → Reach s u

module _ (at : List ℕ → List ℕ) where
  -- The positions of each item of the list are distinct.
  abbrev pub AllDistinct : List (List ℕ) → Type 0
  AllDistinct items = All (λ item. IsDistinct (at item)) items

  all_tests :
      (f : CountingFilter) (before after : List (List ℕ))
      → IsTally at f (before ++ after)
      → All (λ item. test f item ≡ true) after
  all_tests f before [] t = tt
  all_tests f before (x ∷ xs) t = (
    test-IsTally at f before xs x t,
    all_tests f (before ++ x ∷ []) xs
        (subst (IsTally at f) (sym (append_assoc before (x ∷ []) xs)) t),
  )

  Step-AllDistinct : {s t : Session} → Step s t → AllDistinct t.asked → AllDistinct s.asked
  Step-AllDistinct (add_returned item e) d = d.1
  Step-AllDistinct (add_refused item e) d = d.1
  Step-AllDistinct (remove_returned before after item split e) d = d
  Step-AllDistinct (remove_refused before after item split e) d = d

  Step-IsTally :
      {s t : Session}
      → Step s t
      → AllDistinct t.asked
      → IsTally at s.filter s.items × AllDistinct s.items
      → IsTally at t.filter t.items × AllDistinct t.items × (t.underflows ≡ s.underflows)
  Step-IsTally {s} (add_returned item {g} e) d h =
      (add-IsTally at s.filter g s.items item h.0 d.0 e, (d.0, h.1), refl)
  Step-IsTally {s} (add_refused item e) d h = (h.0, h.1, refl)
  Step-IsTally {s} (remove_returned before after item {g} split e) d h =
      let t = subst (IsTally at s.filter) split h.0 in
      let ds = subst AllDistinct split h.1 in
      let last = All-append_right (λ x. IsDistinct (at x)) before (item ∷ after) ds in
      let r = remove-IsTally at s.filter before after item t last.0 in
      let same : r.0 ≡ g = ground (arith, r.1, e) in
      (
        subst (λ f. IsTally at f (before ++ after)) same r.2,
        All-append (λ x. IsDistinct (at x)) before after
            (All-append_left (λ x. IsDistinct (at x)) before (item ∷ after) ds) last.1,
        refl,
      )
  Step-IsTally {s} (remove_refused before after item split e) d h =
      let t = subst (IsTally at s.filter) split h.0 in
      let ds = subst AllDistinct split h.1 in
      let last = All-append_right (λ x. IsDistinct (at x)) before (item ∷ after) ds in
      let r = remove-IsTally at s.filter before after item t last.0 in
      absurd (ground (arith, r.1, e))

  Reach-both :
      {s t : Session}
      → IsTally at s.filter s.items × AllDistinct s.items
      → AllDistinct t.asked
      → Reach s t
      → IsTally at t.filter t.items × AllDistinct t.items × (t.underflows ≡ s.underflows)
  Reach-both h d here = (h.0, h.1, refl)
  Reach-both h d (later run step) =
      let before = Reach-both h (Step-AllDistinct step d) run in
      let after = Step-IsTally step d (before.0, before.1) in (after.0, after.1, after.2 ∙ before.2)

  -- From a filter whose counters are the tally of its items, through any run of `Add`, which may refuse,
  -- and `Remove` of items that are there, where the positions of every item are distinct: each counter
  -- is still the number of the items with its position, `count` is their number, `Remove` never refuses
  -- one of them, and each of them tests as present.
  pub Reach-IsTally :
      {s t : Session}
      → IsTally at s.filter s.items
      → AllDistinct s.items
      → AllDistinct t.asked
      → Reach s t
      → IsTally at t.filter t.items
        × (t.underflows ≡ s.underflows)
        × All (λ item. test t.filter item ≡ true) t.items
  Reach-IsTally {t = t} h ds d run =
      let both = Reach-both (h, ds) d run in (both.0, both.2, all_tests t.filter [] t.items both.0)
