-- ===== src/Filter/Heap/Views.antt =====
-- The operations on the heap do to their receiver what the functions on filters say, and to no other
-- filter anything, whatever is shared.
use bloom_filter_jyy_0098_go.Base.{
  ℕ, zero, suc, ◌+◌, ◌/◌, ◌<◌, ◌≡◌, ◌≢◌, refl, sym, ap, ◌∙◌, List, length, arith, Bool-cases, inl,
  inr, leb, ==_refl, ne→==,
}
use bloom_filter_jyy_0098_go.Hash.{hash}
use bloom_filter_jyy_0098_go.Filter
use bloom_filter_jyy_0098_go.Filter.{BloomFilter, FilterError}
use bloom_filter_jyy_0098_go.Filter.Heap.{
  Heap, FilterRef, view, store, clone, set_idx, add_loop, add,
}

-- The array at p is in use.
abbrev pub IsLive : Heap → FilterRef → Type 0
IsLive h r = r.bits < h.next

pub cell-store_self : (h : Heap) (p : ℕ) (bytes : List ℕ) → (store h p bytes).cell p ≡ bytes
unfolding store
cell-store_self h p bytes = rw (==_refl p) refl

pub cell-store_ne :
    (h : Heap) (p q : ℕ) (bytes : List ℕ) → p ≢ q → (store h p bytes).cell q ≡ h.cell q
unfolding store
cell-store_ne h p q bytes ne = rw (ne→== p q ne) refl

view-set_idx :
    (h : Heap) (r : FilterRef) (i : ℕ) → view (set_idx h r i) r ≡ Filter.set_idx (view h r) i
unfolding set_idx Filter.set_idx
view-set_idx h r i = elim (Bool-cases (leb (length (h.cell r.bits)) (i / 8))) [
  | inl e ↦ rw e refl
  | inr e ↦ rw (e, ==_refl r.bits) refl
]

view-set_idx_other :
    (h : Heap) (r q : FilterRef) (i : ℕ) → r.bits ≢ q.bits → view (set_idx h r i) q ≡ view h q
unfolding set_idx
view-set_idx_other h r q i ne = elim (Bool-cases (leb (length (h.cell r.bits)) (i / 8))) [
  | inl e ↦ rw e refl
  | inr e ↦ rw (e, ne→== r.bits q.bits ne) refl
]

view-add_loop :
    (item : List ℕ) (left i : ℕ) (h : Heap) (r : FilterRef)
    → view (add_loop item left i h r) r ≡ Filter.add_loop item left i (view h r)
unfolding add_loop Filter.add_loop
view-add_loop item zero i h r = refl
view-add_loop item (suc left) i h r =
    view-add_loop item left (i + 1) (set_idx h r (hash item i r.m)) r
    ∙ ap (Filter.add_loop item left (i + 1)) (view-set_idx h r (hash item i r.m))

view-add_loop_other :
    (item : List ℕ) (left i : ℕ) (h : Heap) (r q : FilterRef)
    → r.bits ≢ q.bits
    → view (add_loop item left i h r) q ≡ view h q
unfolding add_loop
view-add_loop_other item zero i h r q ne = refl
view-add_loop_other item (suc left) i h r q ne =
    view-add_loop_other item left (i + 1) (set_idx h r (hash item i r.m)) r q ne
    ∙ view-set_idx_other h r q (hash item i r.m) ne

pub view-add :
    (h : Heap) (r : FilterRef) (item : List ℕ) → view (add h r item) r ≡ Filter.add (view h r) item
unfolding add Filter.add
view-add h r item = view-add_loop item r.k 0 h r

pub view-add_other :
    (h : Heap) (r q : FilterRef) (item : List ℕ)
    → r.bits ≢ q.bits
    → view (add h r item) q ≡ view h q
unfolding add
view-add_other h r q item ne = view-add_loop_other item r.k 0 h r q ne

module _ (h : Heap) (r : FilterRef) where
  view-clone : view (clone h r).1 (clone h r).0 ≡ view h r
  unfolding clone
  view-clone =
      ap (λ bits. record { m = r.m; k = r.k; bits = bits })
        (cell-store_self (record h { next = suc h.next }) h.next (h.cell r.bits))

  view-clone_old : IsLive h r → view (clone h r).1 r ≡ view h r
  unfolding clone
  view-clone_old live =
      ap (λ bits. record { m = r.m; k = r.k; bits = bits })
        (cell-store_ne (record h { next = suc h.next }) h.next r.bits (h.cell r.bits)
          (λ e. omega (arith, e, live)))

  clone_apart : IsLive h r → (clone h r).0.bits ≢ r.bits
  unfolding clone
  clone_apart live e = omega (arith, e, live)

  -- `Clone` gives a filter of the same contents with an array of its own: an item added to the clone
  -- leaves the original as it was, and one added to the original leaves the clone.
  pub view-add-clone :
      (item : List ℕ)
      → IsLive h r
      → (view (clone h r).1 (clone h r).0 ≡ view h r)
        × (view (add (clone h r).1 (clone h r).0 item) (clone h r).0 ≡ Filter.add (view h r) item)
        × (view (add (clone h r).1 (clone h r).0 item) r ≡ view h r)
        × (view (add (clone h r).1 r item) r ≡ Filter.add (view h r) item)
        × (view (add (clone h r).1 r item) (clone h r).0 ≡ view h r)
  view-add-clone item live =
      let c = (clone h r).0 in
      let h₁ = (clone h r).1 in
      let apart = clone_apart live in
      (
        view-clone,
        view-add h₁ c item ∙ ap (λ f. Filter.add f item) view-clone,
        view-add_other h₁ c r item apart ∙ view-clone_old live,
        view-add h₁ r item ∙ ap (λ f. Filter.add f item) (view-clone_old live),
        view-add_other h₁ r c item (λ e. apart (sym e)) ∙ view-clone,
      )
