-- ===== src/Filter/Bag.antt =====
-- What a filter holds depends on the set of its items: not on their order, nor on how often each was
-- added.
use bloom_filter_jyy_0098_go.Base.{
  ℕ, ◌≡◌, sym, ap, ◌∙◌, List, [], ◌∷◌, arith, Bool, true, ◌||◌, ◌↔◌, inl, inr, Bool-cases,
}
use mathlib.Core.List.{Mem, mem-cons, not-mem-nil, mem-cons_self, mem-cons_of_mem}
use mathlib.Core.Logic.Or
use mathlib.Core.Bool.{Bool-set}
use bloom_filter_jyy_0098_go.Filter.{BloomFilter, get_idx, add_all}
use bloom_filter_jyy_0098_go.Filter.Sets.{member}
use bloom_filter_jyy_0098_go.Filter.Valid.{IsValid, add_all-IsValid}
use bloom_filter_jyy_0098_go.Filter.View.{positions, marked, get_idx-add_all, params-add_all}
use bloom_filter_jyy_0098_go.Filter.Ops.Bytes.{filter_ext}

abbrev pub SameItems : List (List ℕ) → List (List ℕ) → Type 0
SameItems xs ys = (item : List ℕ) → Mem item xs ↔ Mem item ys

-- A position of an item of the list is marked.
marked-Mem :
    (m k : ℕ) (items : List (List ℕ)) (item : List ℕ) (j : ℕ)
    → Mem item items
    → member j (positions m k item) ≡ true
    → marked m k items j ≡ true
unfolding marked
marked-Mem m k [] item j h on = absurd (not-mem-nil h)
marked-Mem m k (x ∷ xs) item j h on =
    Or.elim (Bool-set _ _) (mem-cons.0 h) (λ e. ground (arith, e, on))
      (λ r. ground (arith, marked-Mem m k xs item j r on))

marked_mono :
    (m k : ℕ) (xs ys : List (List ℕ)) (j : ℕ)
    → ((item : List ℕ) → Mem item xs → Mem item ys)
    → marked m k xs j ≡ true
    → marked m k ys j ≡ true
unfolding marked
marked_mono m k [] ys j sub h = absurd (ground (arith, h))
marked_mono m k (x ∷ xs) ys j sub h = elim (Bool-cases (member j (positions m k x))) [
  | inl on ↦ marked-Mem m k ys x j (sub x mem-cons_self) on
  | inr off ↦
      marked_mono m k xs ys j (λ item r. sub item (mem-cons_of_mem x r)) (ground (arith, off, h))
]

Bool_ext : (a b : Bool) → (a ≡ true → b ≡ true) → (b ≡ true → a ≡ true) → a ≡ b
Bool_ext a b h k = ground (arith, h, k)

-- Adding the same items to a valid filter, in any order and each any number of times but once at
-- least, gives the same filter, byte for byte.
pub add_all-SameItems :
    (f : BloomFilter) (xs ys : List (List ℕ))
    → IsValid f
    → SameItems xs ys
    → add_all f xs ≡ add_all f ys
add_all-SameItems f xs ys v h =
    let px = params-add_all f xs in
    let py = params-add_all f ys in
    let same : (j : ℕ) → marked f.m f.k xs j ≡ marked f.m f.k ys j = λ j.
      Bool_ext (marked f.m f.k xs j) (marked f.m f.k ys j)
        (marked_mono f.m f.k xs ys j (λ item. (h item).0))
        (marked_mono f.m f.k ys xs j (λ item. (h item).1)) in
    filter_ext (add_all f xs) (add_all f ys) (add_all-IsValid f xs v) (add_all-IsValid f ys v)
      (px.0 ∙ sym py.0) (px.1 ∙ sym py.1)
      (λ j.
        get_idx-add_all f xs j v
        ∙ ap (λ b. b || get_idx f j) (same j)
        ∙ sym (get_idx-add_all f ys j v))
