-- ===== src/Filter/Membership.antt =====
-- `Add` and `Test` of filter.go, seen from their callers.
use bloom_filter_jyy_0098_go.Base.{
  ℕ, ◌≡◌, ◌<◌, ◌/◌, ◌%◌, ap, refl, zero, suc, List, [], ◌∷◌, arith, true, false, ◌∙◌, sym, get_or,
  replicate, get_or-replicate, has_bit-zero,
}
use bloom_filter_jyy_0098_go.Hash.{hash}
use mathlib.Core.List.{Mem, mem-cons, not-mem-nil}
use mathlib.Core.Logic.Or
use mathlib.Core.Bool.{Bool-set}
use bloom_filter_jyy_0098_go.Filter.{BloomFilter, get_idx, add, test, test_loop, add_all}
use bloom_filter_jyy_0098_go.Filter.Sets.{covers-member, covers_mono}
use bloom_filter_jyy_0098_go.Filter.Valid.{IsValid, add-IsValid}
use bloom_filter_jyy_0098_go.Filter.View.{
  positions, get_idx-add, test-eq-covers, test-add-eq-covers,
}

-- In a valid filter an item tests as present right after it is added.
pub test-add : (f : BloomFilter) (item : List ℕ) → IsValid f → test (add f item) item ≡ true
test-add f item v =
    test-add-eq-covers f item item
    ∙ covers-member (get_idx (add f item)) (positions f.m f.k item)
        (λ j h. ground (arith, get_idx-add f item j v))

-- An item that tests as present in a valid filter still does after any other is added.
pub test-add_mono :
    (f : BloomFilter) (item other : List ℕ)
    → IsValid f
    → test f item ≡ true
    → test (add f other) item ≡ true
test-add_mono f item other v h =
    test-add-eq-covers f other item
    ∙ covers_mono (get_idx f) (get_idx (add f other)) (positions f.m f.k item)
        (λ j q. ground (arith, get_idx-add f other j v)) (sym (test-eq-covers f item) ∙ h)

test-add_all_mono :
    (f : BloomFilter) (items : List (List ℕ)) (item : List ℕ)
    → IsValid f
    → test f item ≡ true
    → test (add_all f items) item ≡ true
unfolding add_all
test-add_all_mono f [] item v h = h
test-add_all_mono f (x ∷ xs) item v h =
    test-add_all_mono (add f x) xs item (add-IsValid f x v) (test-add_mono f item x v h)

-- After any items are added in a row to a valid filter, each of them tests as present: there are
-- no false negatives.
pub test-add_all :
    (f : BloomFilter) (items : List (List ℕ)) (item : List ℕ)
    → IsValid f
    → Mem item items
    → test (add_all f items) item ≡ true
unfolding add_all
test-add_all f [] item v h = absurd (not-mem-nil h)
test-add_all f (x ∷ xs) item v h =
    Or.elim (Bool-set _ _) (mem-cons.0 h)
      (λ e. rw e (test-add_all_mono (add f x) xs x (add-IsValid f x v) (test-add f x v)))
      (λ m. test-add_all (add f x) xs item (add-IsValid f x v) m)

-- A bit of an array of zeros is off.
get_idx-zeros : (f : BloomFilter) (n i : ℕ) → f.bits ≡ replicate n 0 → get_idx f i ≡ false
unfolding get_idx
get_idx-zeros f n i e =
    let zero_byte : get_or f.bits (i / 8) 0 ≡ 0 =
      ap (λ bits. get_or bits (i / 8) 0) e ∙ get_or-replicate n (i / 8) 0 in
    rw zero_byte (ground (arith, has_bit-zero (i % 8)))

-- A filter without a bit that is on has no item.
pub test-zeros :
    (f : BloomFilter) (n : ℕ) (item : List ℕ)
    → 0 < f.k
    → f.bits ≡ replicate n 0
    → test f item ≡ false
unfolding test test_loop
test-zeros f n item h e = first_off f.k f h (λ i. get_idx-zeros f n i e)
  where
    first_off :
        (left : ℕ) (f : BloomFilter)
        → 0 < left
        → ((i : ℕ) → get_idx f i ≡ false)
        → test_loop item left 0 f ≡ false
    first_off zero f h off = absurd (omega arith)
    first_off (suc left) f h off = rw (off (hash item 0 f.m)) refl
