-- ===== src/Filter/Heap.antt =====
-- Filters as Go has them: pointers to structs whose `bits` is a slice in shared memory. `Clone` and
-- the operations of filter.go and ops.go that write a slice in place, on an explicit heap.
pub mod Views
pub mod Combined
use bloom_filter_jyy_0098_go.Base.{
  ℕ, zero, suc, ◌+◌, ◌/◌, ◌%◌, ◌^◌, Option, none, some, List, length, get_or, set, leb, ltb, ◌==◌,
  if◌then◌else◌, bit_or, Result, ok, err, panic, Bool, not, ◌||◌, ◌>>=◌,
}
use bloom_filter_jyy_0098_go.Hash.{hash}
use bloom_filter_jyy_0098_go.Filter.{BloomFilter, FilterError, nil_filter, param_mismatch}

-- The arrays, by address; the addresses from `next` on are free.
pub record Heap : Type 0 where
  pub next : ℕ
  pub cell : ℕ → List ℕ

-- A filter with the address of its array.
pub record FilterRef : Type 0 where
  pub m : ℕ
  pub k : ℕ
  pub bits : ℕ

-- What a reference stands for now.
abbrev pub view : Heap → FilterRef → BloomFilter
view h r = record { m = r.m; k = r.k; bits = h.cell r.bits }

unfoldable pub store : Heap → ℕ → List ℕ → Heap
store h p bytes = record h { cell = λ q. if p == q then bytes else h.cell q }

-- `make` and `copy`: a new array with these bytes.
unfoldable pub alloc : Heap → List ℕ → ℕ × Heap
unfolding store
alloc h bytes = (h.next, store (record h { next = suc h.next }) h.next bytes)

unfoldable pub clone : Heap → FilterRef → FilterRef × Heap
unfolding alloc
clone h r = let a = alloc h (h.cell r.bits) in (record r { bits = a.0 }, a.1)

-- `f.set(idx)` writes one byte of the array.
unfoldable pub set_idx : Heap → FilterRef → ℕ → Heap
unfolding store
set_idx h r idx =
    let bits = h.cell r.bits in
    let bi = idx / 8 in
    if leb (length bits) bi
    then h
    else store h r.bits (set bits bi (bit_or (get_or bits bi 0) (2 ^ (idx % 8))))

unfoldable pub add_loop : List ℕ → ℕ → ℕ → Heap → FilterRef → Heap
unfolding set_idx
add_loop item zero i h r = h
add_loop item (suc left) i h r = add_loop item left (i + 1) (set_idx h r (hash item i r.m)) r

unfoldable pub add : Heap → FilterRef → List ℕ → Heap
unfolding add_loop
add h r item = add_loop item r.k 0 h r

-- The in-place loops of `Union`, `Intersection`, `Difference` and `XOR` from index i on, with `left`
-- rounds to go: each reads both arrays as they are now. An index out of range panics.
unfoldable pub combine_loop : (ℕ → ℕ → ℕ) → ℕ → ℕ → Heap → ℕ → ℕ → Option Heap
unfolding store
combine_loop op zero i h p q = some h
combine_loop op (suc left) i h p q =
    let xs = h.cell p in
    let ys = h.cell q in
    let rest =
      combine_loop op left (i + 1) (store h p (set xs i (op (get_or xs i 0) (get_or ys i 0)))) p
        q in
    if ltb i (length ys) then rest else none

unfoldable pub combine : (ℕ → ℕ → ℕ) → Heap → FilterRef → Option FilterRef → Result FilterError Heap
unfolding combine_loop
combine op h r none = err nil_filter
combine op h r (some q) =
    if not (r.m == q.m) || not (r.k == q.k)
    then err param_mismatch
    else elim (combine_loop op (length (h.cell r.bits)) 0 h r.bits q.bits) [
      | some h' ↦ ok h'
      | none ↦ panic
    ]
