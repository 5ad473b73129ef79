-- ===== src/Filter/View.antt =====
-- The abstract filter: m, k and the set of bit positions that are on. `set_idx` and `add` are
-- described by what they do to that set.
use bloom_filter_jyy_0098_go.Base.{
  ap₂, ◌∙◌, ℕ, zero, suc, ◌+◌, ◌/◌, ◌%◌, ◌^◌, ◌<◌, ◌≡◌, refl, List, [], ◌∷◌, ◌++◌, length, arith,
  ◌||◌, ◌==◌, get_or, length-set, get_or-set_self, get_or-set_ne, bit_or, has_bit-bit_or,
  has_bit-pow, Bool, false,
}
use native.Mathlib.Decide.{ℕ_discrete}
use bloom_filter_jyy_0098_go.Hash.{hash}
use bloom_filter_jyy_0098_go.Hash.Bounds.{hash-lt}
use bloom_filter_jyy_0098_go.Filter.{
  BloomFilter, set_idx, get_idx, add_loop, add, test_loop, test, add_all,
}
use bloom_filter_jyy_0098_go.Filter.Sets.{member, covers}
use bloom_filter_jyy_0098_go.Filter.Valid.{IsValid, index_in_bits, set_idx-IsValid, add-IsValid}

-- The positions that `Add` sets and `Test` reads, from round i on.
pub indices : List ℕ → ℕ → ℕ → ℕ → List ℕ
indices item m zero i = []
indices item m (suc left) i = hash item i m ∷ indices item m left (i + 1)

-- The positions of an item in a filter of m bits with k hash functions.
pub positions : ℕ → ℕ → List ℕ → List ℕ
unfolding indices
positions m k item = indices item m k 0

pub m-set_idx : (f : BloomFilter) (i : ℕ) → (set_idx f i).m ≡ f.m
unfolding set_idx
m-set_idx f i = ground arith

k-set_idx : (f : BloomFilter) (i : ℕ) → (set_idx f i).k ≡ f.k
unfolding set_idx
k-set_idx f i = ground arith

params-add_loop :
    (item : List ℕ) (left i : ℕ) (f : BloomFilter)
    → ((add_loop item left i f).m ≡ f.m) × ((add_loop item left i f).k ≡ f.k)
unfolding add_loop
params-add_loop item zero i f = (refl, refl)
params-add_loop item (suc left) i f =
    let at = hash item i f.m in
    ground (arith, params-add_loop item left (i + 1) (set_idx f at), m-set_idx f at, k-set_idx f at)

-- `Add` keeps m and k.
pub params-add : (f : BloomFilter) (item : List ℕ) → ((add f item).m ≡ f.m) × ((add f item).k ≡ f.k)
params-add f item = unfold add in params-add_loop item f.k 0 f

-- The byte that `set_idx` writes.
abbrev written : BloomFilter → ℕ → ℕ
written f i = bit_or (get_or f.bits (i / 8) 0) (2 ^ (i % 8))

-- A bit that is set reads as on, and no other bit changes.
pub get_idx-set_idx :
    (f : BloomFilter) (i j : ℕ)
    → i / 8 < length f.bits
    → get_idx (set_idx f i) j ≡ ((i == j) || get_idx f j)
unfolding get_idx set_idx
get_idx-set_idx f i j h = elim (ℕ_discrete (i / 8) (j / 8)) [
  | yes e ↦ ground (
    arith,
    length-set f.bits (i / 8) (written f i),
    get_or-set_self f.bits (i / 8) (written f i) 0,
    has_bit-bit_or (get_or f.bits (i / 8) 0) (2 ^ (i % 8)) (j % 8),
    has_bit-pow (i % 8) (j % 8),
  )
  | no ne ↦ ground (
    arith,
    length-set f.bits (i / 8) (written f i),
    get_or-set_ne f.bits (i / 8) (j / 8) (written f i) 0 ne,
  )
]

-- `Add` turns on the positions of its rounds and no other.
get_idx-add_loop :
    (item : List ℕ) (left i : ℕ) (f : BloomFilter) (j : ℕ)
    → IsValid f
    → get_idx (add_loop item left i f) j ≡ (member j (indices item f.m left i) || get_idx f j)
unfolding add_loop indices member
get_idx-add_loop item zero i f j v = refl
get_idx-add_loop item (suc left) i f j v =
    let at = hash item i f.m in
    ground (
      arith,
      get_idx-add_loop item left (i + 1) (set_idx f at) j (set_idx-IsValid f at v),
      m-set_idx f at,
      get_idx-set_idx f at j (index_in_bits f at v (hash-lt item i f.m v.m_pos)),
    )

pub get_idx-add :
    (f : BloomFilter) (item : List ℕ) (j : ℕ)
    → IsValid f
    → get_idx (add f item) j ≡ (member j (positions f.m f.k item) || get_idx f j)
get_idx-add f item j v = unfold add positions in get_idx-add_loop item f.k 0 f j v

test_loop-eq-covers :
    (item : List ℕ) (left i : ℕ) (f : BloomFilter)
    → test_loop item left i f ≡ covers (get_idx f) (indices item f.m left i)
unfolding test_loop indices covers
test_loop-eq-covers item zero i f = refl
test_loop-eq-covers item (suc left) i f = ground (arith, test_loop-eq-covers item left (i + 1) f)

-- `Test` asks whether every position of the item is on.
pub test-eq-covers :
    (f : BloomFilter) (item : List ℕ) → test f item ≡ covers (get_idx f) (positions f.m f.k item)
test-eq-covers f item = unfold test positions in test_loop-eq-covers item f.k 0 f

-- `Test` after an `Add`, read with the parameters from before it.
pub test-add-eq-covers :
    (f : BloomFilter) (other item : List ℕ)
    → test (add f other) item ≡ covers (get_idx (add f other)) (positions f.m f.k item)
test-add-eq-covers f other item =
    test-eq-covers (add f other) item
    ∙ ap₂ (λ m k. covers (get_idx (add f other)) (positions m k item)) (params-add f other).0
        (params-add f other).1

-- The positions that some item of the list marks.
unfoldable pub marked : ℕ → ℕ → List (List ℕ) → ℕ → Bool
marked m k [] j = false
marked m k (item ∷ items) j = member j (positions m k item) || marked m k items j

pub get_idx-add_all :
    (f : BloomFilter) (items : List (List ℕ)) (j : ℕ)
    → IsValid f
    → get_idx (add_all f items) j ≡ (marked f.m f.k items j || get_idx f j)
unfolding add_all marked
get_idx-add_all f [] j v = refl
get_idx-add_all f (x ∷ xs) j v =
    get_idx-add_all (add f x) xs j (add-IsValid f x v)
    ∙ ap₂ (λ m k. marked m k xs j || get_idx (add f x) j) (params-add f x).0 (params-add f x).1
    ∙ ground (arith, get_idx-add f x j v)

pub params-add_all :
    (f : BloomFilter) (items : List (List ℕ))
    → ((add_all f items).m ≡ f.m) × ((add_all f items).k ≡ f.k)
unfolding add_all
params-add_all f [] = (refl, refl)
params-add_all f (x ∷ xs) =
    let first = params-add f x in
    let rest = params-add_all (add f x) xs in (rest.0 ∙ first.0, rest.1 ∙ first.1)

pub marked-append :
    (m k : ℕ) (xs ys : List (List ℕ)) (j : ℕ)
    → marked m k (xs ++ ys) j ≡ (marked m k xs j || marked m k ys j)
unfolding marked
marked-append m k [] ys j = refl
marked-append m k (x ∷ xs) ys j = ground (arith, marked-append m k xs ys j)
