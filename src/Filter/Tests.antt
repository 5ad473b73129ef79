-- ===== src/Filter/Tests.antt =====
-- The theorems on filters at concrete inputs, and runs of the code.
use bloom_filter_jyy_0098_go.Base.{
  ℕ, ◌≡◌, refl, List, [], ◌∷◌, ◌++◌, arith, All, IsByte, ok, err, some, none, true, false, ◌+◌, ◌*◌,
  ◌<◌, ◌&&◌, ◌||◌, not, ltb, ◌==◌, ◌⊎◌,
}
use mathlib.Core.List.{mem-cons_self, mem-cons, mem-cons_of_mem, Mem-prop}
use mathlib.Core.Logic.Or
use bloom_filter_jyy_0098_go.Base.{bit_xor}
use bloom_filter_jyy_0098_go.Filter.Ops
use bloom_filter_jyy_0098_go.Filter.Heap
use bloom_filter_jyy_0098_go.Filter.Heap.{Heap, FilterRef, view, clone}
use bloom_filter_jyy_0098_go.Filter.Heap.Views.{view-add-clone}
use bloom_filter_jyy_0098_go.Filter.Heap.Combined.{seen, seen-combine}
use bloom_filter_jyy_0098_go.Filter.Bag.{SameItems, add_all-SameItems}
use bloom_filter_jyy_0098_go.Filter.{BloomFilter, new, add, add_all, test, invalid_params}
use bloom_filter_jyy_0098_go.Filter.Valid.{IsValid}
use bloom_filter_jyy_0098_go.Filter.Membership.{test-add_all}
use bloom_filter_jyy_0098_go.Filter.Ops.{union, popcnt, popcnt_loop}
use bloom_filter_jyy_0098_go.Filter.Ops.Algebra.{Matches, IsCombined}
use bloom_filter_jyy_0098_go.Filter.Ops.Merged.{test-union, add_all-Matches}
use bloom_filter_jyy_0098_go.Filter.Ops.Count.{ones, popcnt_loop-eq-ones}

abbrev empty16 : BloomFilter
empty16 = record { m = 16; k = 2; bits = 0 ∷ 0 ∷ [] }

empty16-IsValid : IsValid empty16
empty16-IsValid = record {
  m_pos = omega arith;
  m_fits = omega arith;
  k_pos = omega arith;
  k_fits = omega arith;
  sized = omega arith;
  bytes = omega arith;
}

abbrev apple : List ℕ
apple = b'a' ∷ b'p' ∷ []

abbrev pear : List ℕ
pear = b'p' ∷ []

new_runs :
    (new 16 2 ≡ ok empty16) × (new 0 2 ≡ err invalid_params) × (new 16 0 ≡ err invalid_params)
unfolding new
new_runs = (refl, refl, refl)

add_runs : (test (add empty16 apple) apple ≡ true) × (test empty16 apple ≡ false)
unfolding add test bloom_filter_jyy_0098_go.Hash.hash bloom_filter_jyy_0098_go.Std.Fnv.sum64a
    bloom_filter_jyy_0098_go.Std.Fnv.sum64 bloom_filter_jyy_0098_go.Base.has_bit
add_runs = (refl, refl)

test-add_all_example : test (add_all empty16 (apple ∷ pear ∷ [])) apple ≡ true
test-add_all_example = test-add_all empty16 (apple ∷ pear ∷ []) apple empty16-IsValid mem-cons_self

matching : Matches (add_all empty16 (apple ∷ [])) (add_all empty16 (pear ∷ []))
matching = add_all-Matches empty16 (apple ∷ []) (pear ∷ []) empty16-IsValid

abbrev apples : BloomFilter
apples = add_all empty16 (apple ∷ [])

abbrev pears : BloomFilter
pears = add_all empty16 (pear ∷ [])

test-union_example :
    (h : BloomFilter) × (union apples (some pears) ≡ ok h)
    × IsCombined (λ a b. a || b) apples pears h
    × ((item : List ℕ) → (test apples item ≡ true) ⊎ (test pears item ≡ true) → test h item ≡ true)
test-union_example = test-union apples pears matching

popcnt_loop-eq-ones_example : popcnt_loop 182 181 0 ≡ some (ones 8 181)
popcnt_loop-eq-ones_example = popcnt_loop-eq-ones 181 (omega arith)

popcnt_runs : popcnt 0xb5 ≡ 5
unfolding popcnt
popcnt_runs = refl

-- An item twice, or once.
apple_twice : SameItems (apple ∷ apple ∷ []) (apple ∷ [])
apple_twice item =
    (λ h. Or.elim Mem-prop (mem-cons.0 h) (λ e. rw e mem-cons_self) (λ r. r), mem-cons_of_mem apple)

add_all-SameItems_example : add_all empty16 (apple ∷ apple ∷ []) ≡ add_all empty16 (apple ∷ [])
add_all-SameItems_example =
    add_all-SameItems empty16 (apple ∷ apple ∷ []) (apple ∷ []) empty16-IsValid apple_twice

-- One array with the bytes of `apples`, and a filter that has it.
abbrev heap1 : Heap
heap1 = record { next = 1; cell = λ p. apples.bits }

abbrev ref1 : FilterRef
ref1 = record { m = 16; k = 2; bits = 0 }

view-add-clone_example :
    (view (clone heap1 ref1).1 (clone heap1 ref1).0 ≡ view heap1 ref1)
    × (view (Heap.add (clone heap1 ref1).1 (clone heap1 ref1).0 pear) (clone heap1 ref1).0
        ≡ add (view heap1 ref1) pear)
    × (view (Heap.add (clone heap1 ref1).1 (clone heap1 ref1).0 pear) ref1 ≡ view heap1 ref1)
    × (view (Heap.add (clone heap1 ref1).1 ref1 pear) ref1 ≡ add (view heap1 ref1) pear)
    × (view (Heap.add (clone heap1 ref1).1 ref1 pear) (clone heap1 ref1).0 ≡ view heap1 ref1)
view-add-clone_example = view-add-clone heap1 ref1 pear (omega arith)

-- `XOR` of a filter with itself.
seen-combine_example :
    seen ref1 (Heap.combine bit_xor heap1 ref1 (some ref1))
    ≡ Ops.combine bit_xor (view heap1 ref1) (some (view heap1 ref1))
seen-combine_example = seen-combine bit_xor heap1 ref1 ref1
