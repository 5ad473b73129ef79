-- ===== src/Filter/Ops/Merged.antt =====
-- The combinations of ops.go, seen as operations on the items of filters.
use bloom_filter_jyy_0098_go.Base.{
  ℕ, ◌≡◌, sym, ◌∙◌, ap, ap₂, List, ◌++◌, arith, ok, Bool, true, ◌&&◌, ◌||◌, some, bit_and, bit_or,
  bit_xor, ◌⊎◌, inl, inr,
}
use mathlib.Core.Bool.{xor}
use bloom_filter_jyy_0098_go.Filter.{BloomFilter, get_idx, test, add_all}
use bloom_filter_jyy_0098_go.Filter.Valid.{IsValid, add_all-IsValid}
use bloom_filter_jyy_0098_go.Filter.Sets.{covers, covers_mono, covers-and}
use bloom_filter_jyy_0098_go.Filter.View.{
  positions, test-eq-covers, marked-append, get_idx-add_all, params-add_all,
}
use bloom_filter_jyy_0098_go.Filter.Ops.{union, intersection, xor_with}
use bloom_filter_jyy_0098_go.Filter.Ops.Bytes.{filter_ext}
use bloom_filter_jyy_0098_go.Filter.Ops.Algebra.{
  Matches, IsCombined, zipped, zipped-IsCombined, union-eq-zipped, intersection-eq-zipped,
  xor_with-eq-zipped, bit_or-Bitwise, bit_and-Bitwise, bit_xor-Bitwise,
}

-- `Test` on a filter with the parameters of `f`.
test_as :
    (f h : BloomFilter) (item : List ℕ)
    → h.m ≡ f.m
    → h.k ≡ f.k
    → test h item ≡ covers (get_idx h) (positions f.m f.k item)
test_as f h item em ek =
    test-eq-covers h item ∙ ap₂ (λ m k. covers (get_idx h) (positions m k item)) em ek

-- `Union` of matching valid filters succeeds, and its result reports every item that either
-- filter reports.
pub test-union :
    (f g : BloomFilter)
    → Matches f g
    → (h : BloomFilter) × (union f (some g) ≡ ok h)
      × IsCombined (λ a b. a || b) f g h
      × ((item : List ℕ) → (test f item ≡ true) ⊎ (test g item ≡ true) → test h item ≡ true)
test-union f g p = (h, union-eq-zipped f g p, c, reports)
  where
    h : BloomFilter
    h = zipped bit_or f g

    c : IsCombined (λ a b. a || b) f g h
    c = zipped-IsCombined bit_or-Bitwise f g p

    reports : (item : List ℕ) → (test f item ≡ true) ⊎ (test g item ≡ true) → test h item ≡ true
    reports item (inl e) =
        test_as f h item c.m_kept c.k_kept
        ∙ covers_mono (get_idx f) (get_idx h) (positions f.m f.k item)
            (λ j q. ground (arith, c.at j)) (sym (test-eq-covers f item) ∙ e)
    reports item (inr e) =
        test_as f h item c.m_kept c.k_kept
        ∙ covers_mono (get_idx g) (get_idx h) (positions f.m f.k item)
            (λ j q. ground (arith, c.at j))
            (sym (test_as f g item (sym p.same_m) (sym p.same_k)) ∙ e)

-- `Intersection` of matching valid filters succeeds, and its result reports exactly the items
-- that both filters report.
pub test-intersection :
    (f g : BloomFilter)
    → Matches f g
    → (h : BloomFilter) × (intersection f (some g) ≡ ok h)
      × IsCombined (λ a b. a && b) f g h
      × ((item : List ℕ) → test h item ≡ (test f item && test g item))
test-intersection f g p = (h, intersection-eq-zipped f g p, c, reports)
  where
    h : BloomFilter
    h = zipped bit_and f g

    c : IsCombined (λ a b. a && b) f g h
    c = zipped-IsCombined bit_and-Bitwise f g p

    reports : (item : List ℕ) → test h item ≡ (test f item && test g item)
    reports item =
        test_as f h item c.m_kept c.k_kept
        ∙ covers-and (get_idx f) (get_idx g) (get_idx h) (positions f.m f.k item) c.at
        ∙ sym (ap₂ ◌&&◌ (test-eq-covers f item) (test_as f g item (sym p.same_m) (sym p.same_k)))

pub add_all-Matches :
    (e : BloomFilter) (xs ys : List (List ℕ)) → IsValid e → Matches (add_all e xs) (add_all e ys)
add_all-Matches e xs ys v = record {
  left = add_all-IsValid e xs v;
  right = add_all-IsValid e ys v;
  same_m = (params-add_all e xs).0 ∙ sym (params-add_all e ys).0;
  same_k = (params-add_all e xs).1 ∙ sym (params-add_all e ys).1;
}

pub zipped-add_all :
    (e : BloomFilter) (xs ys : List (List ℕ))
    → IsValid e
    → zipped bit_or (add_all e xs) (add_all e ys) ≡ add_all e (xs ++ ys)
zipped-add_all e xs ys v =
    filter_ext (zipped bit_or (add_all e xs) (add_all e ys)) (add_all e (xs ++ ys)) c.valid
      (add_all-IsValid e (xs ++ ys) v)
      (c.m_kept ∙ (params-add_all e xs).0 ∙ sym (params-add_all e (xs ++ ys)).0)
      (c.k_kept ∙ (params-add_all e xs).1 ∙ sym (params-add_all e (xs ++ ys)).1)
      λ j. ground (
        arith,
        c.at j,
        get_idx-add_all e xs j v,
        get_idx-add_all e ys j v,
        get_idx-add_all e (xs ++ ys) j v,
        marked-append e.m e.k xs ys j,
      )
  where
    c :
        IsCombined
          (λ a b. a || b)
          (add_all e xs)
          (add_all e ys)
          (zipped bit_or (add_all e xs) (add_all e ys))
    c = zipped-IsCombined bit_or-Bitwise (add_all e xs) (add_all e ys) (add_all-Matches e xs ys v)

-- Merging the filters of two nodes, which added different items to the same valid filter, gives
-- the very filter of one node that added all of them.
pub union-add_all :
    (e : BloomFilter) (xs ys : List (List ℕ))
    → IsValid e
    → union (add_all e xs) (some (add_all e ys)) ≡ ok (add_all e (xs ++ ys))
union-add_all e xs ys v =
    union-eq-zipped (add_all e xs) (add_all e ys) (add_all-Matches e xs ys v)
    ∙ ap ok (zipped-add_all e xs ys v)

-- `XOR` of matching valid filters succeeds, and a second time it restores the first filter.
pub xor_with_twice :
    (f g : BloomFilter)
    → Matches f g
    → (h : BloomFilter) × (xor_with f (some g) ≡ ok h) × (xor_with h (some g) ≡ ok f)
xor_with_twice f g p = (
  h,
  xor_with-eq-zipped f g p,
  xor_with-eq-zipped h g q
      ∙ ap ok (
          filter_ext (zipped bit_xor h g) f d.valid p.left (d.m_kept ∙ c.m_kept)
            (d.k_kept ∙ c.k_kept)
            (λ j.
              d.at j
              ∙ ap (λ b. xor b (get_idx g j)) (c.at j)
              ∙ xor_cancel (get_idx f j) (get_idx g j))),
)
  where
    h : BloomFilter
    h = zipped bit_xor f g

    c : IsCombined xor f g h
    c = zipped-IsCombined bit_xor-Bitwise f g p

    q : Matches h g
    q = record {
      left = c.valid;
      right = p.right;
      same_m = c.m_kept ∙ p.same_m;
      same_k = c.k_kept ∙ p.same_k;
    }

    d : IsCombined xor h g (zipped bit_xor h g)
    d = zipped-IsCombined bit_xor-Bitwise h g q

    xor_cancel : (a b : Bool) → xor (xor a b) b ≡ a
    xor_cancel a b = unfold xor in ground arith
