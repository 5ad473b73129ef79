-- ===== src/Filter/Heap/Combined.antt =====
-- The in-place loops of ops.go on arrays that may be one and the same.
use bloom_filter_jyy_0098_go.Base.{
  ℕ, zero, suc, ◌+◌, ◌<◌, ◌≤◌, ◌≡◌, ◌≢◌, ◌⊎◌, refl, sym, ap, ap₂, ◌∙◌, none, some, List, [], ◌∷◌,
  ◌++◌, length, get_or, set, take, drop, arith, Result, ok, err, panic, Bool-cases, inl, inr, ltb,
  ltb→lt, ◌>>=◌, length-set, append_assoc, append-nil, take_all,
}
use native.Mathlib.Decide.{ℕ_discrete}
use bloom_filter_jyy_0098_go.Filter.{BloomFilter, FilterError}
use bloom_filter_jyy_0098_go.Filter.Ops.{zip_bytes, mismatch}
use bloom_filter_jyy_0098_go.Filter.Ops
use bloom_filter_jyy_0098_go.Filter.Heap.{Heap, FilterRef, view, store, combine_loop, combine}
use bloom_filter_jyy_0098_go.Filter.Heap.Views.{cell-store_self, cell-store_ne}

module _ {ℓ} {A : Type ℓ} where
  -- A slice from an index in range, and from one out of range.
  drop_at :
      (i : ℕ) (xs : List A) (d : A) → i < length xs → drop i xs ≡ get_or xs i d ∷ drop (i + 1) xs
  drop_at i [] d h = absurd (omega arith)
  drop_at zero (x ∷ xs) d h = refl
  drop_at (suc i) (x ∷ xs) d h =
      let e : suc i + 1 ≡ suc (i + 1) = omega arith in rw e (drop_at i xs d (omega arith))

  drop_out : (i : ℕ) (xs : List A) → length xs ≤ i → drop i xs ≡ []
  drop_out zero [] h = refl
  drop_out (suc i) [] h = refl
  drop_out zero (x ∷ xs) h = absurd (omega arith)
  drop_out (suc i) (x ∷ xs) h = drop_out i xs (omega arith)

  drop-set : (i : ℕ) (xs : List A) (v : A) → drop (i + 1) (set xs i v) ≡ drop (i + 1) xs
  drop-set i [] v = refl
  drop-set zero (x ∷ xs) v = refl
  drop-set (suc i) (x ∷ xs) v =
      let e : suc i + 1 ≡ suc (i + 1) = omega arith in rw e (drop-set i xs v)

  take-set :
      (i : ℕ) (xs : List A) (v : A)
      → i < length xs
      → take (i + 1) (set xs i v) ≡ take i xs ++ v ∷ []
  take-set i [] v h = absurd (omega arith)
  take-set zero (x ∷ xs) v h = refl
  take-set (suc i) (x ∷ xs) v h =
      let e : suc i + 1 ≡ suc (i + 1) = omega arith in
      rw e (ap (◌∷◌ x) (take-set i xs v (omega arith)))

-- The array at q behind index i is not affected by a write at index i of the array at p, be it the
-- same or another.
drop-store :
    (h : Heap) (p q i v : ℕ)
    → drop (i + 1) ((store h p (set (h.cell p) i v)).cell q) ≡ drop (i + 1) (h.cell q)
drop-store h p q i v = elim (ℕ_discrete p q) [
  | yes e ↦
      ap (λ b. drop (i + 1) ((store h p (set (h.cell p) i v)).cell b)) (sym e)
      ∙ ap (drop (i + 1)) (cell-store_self h p (set (h.cell p) i v))
      ∙ drop-set i (h.cell p) v
      ∙ ap (λ b. drop (i + 1) (h.cell b)) e
  | no ne ↦ ap (drop (i + 1)) (cell-store_ne h p q (set (h.cell p) i v) ne)
]

-- What the loop leaves: the bytes that `zip_bytes` gives, in place of those from index i on.
record IsCombined (op : ℕ → ℕ → ℕ) (i left : ℕ) (h : Heap) (p q : ℕ) : Type 0 where
  pub bytes : List ℕ
  pub heap : Heap
  pub zipped : zip_bytes {E = FilterError} op (drop i (h.cell p)) (drop i (h.cell q)) ≡ ok bytes
  pub ran : combine_loop op left i h p q ≡ some heap
  pub written : heap.cell p ≡ take i (h.cell p) ++ bytes
  pub others : (o : ℕ) → p ≢ o → heap.cell o ≡ h.cell o

record IsPanic (op : ℕ → ℕ → ℕ) (i left : ℕ) (h : Heap) (p q : ℕ) : Type 0 where
  pub zipped : zip_bytes {E = FilterError} op (drop i (h.cell p)) (drop i (h.cell q)) ≡ panic
  pub ran : combine_loop op left i h p q ≡ none

combine_loop-cases :
    (op : ℕ → ℕ → ℕ) (left i : ℕ) (h : Heap) (p q : ℕ)
    → i + left ≡ length (h.cell p)
    → IsCombined op i left h p q ⊎ IsPanic op i left h p q
unfolding combine_loop zip_bytes
combine_loop-cases op zero i h p q e = inl (record {
  bytes = [];
  heap = h;
  zipped = rw (drop_out i (h.cell p) (omega arith)) refl;
  ran = refl;
  written = sym (append-nil (take i (h.cell p)) ∙ take_all i (h.cell p) (omega arith));
  others = λ o ne. refl;
})
combine_loop-cases op (suc left) i h p q e =
    let xs = h.cell p in
    let v = op (get_or xs i 0) (get_or (h.cell q) i 0) in
    let h₁ = store h p (set xs i v) in
    let now = cell-store_self h p (set xs i v) in
    let room : i < length xs = omega arith in
    let zip = zip_bytes {E = FilterError} op in
    let put : Result FilterError (List ℕ) → Result FilterError (List ℕ) =
      λ r. r >>= (λ rest. ok (v ∷ rest)) in
    let later : zip (drop (i + 1) xs) (drop (i + 1) (h.cell q))
        ≡ zip (drop (i + 1) (h₁.cell p)) (drop (i + 1) (h₁.cell q)) =
      ap₂ zip (sym (drop-store h p p i v)) (sym (drop-store h p q i v)) in
    elim (Bool-cases (ltb i (length (h.cell q)))) [
      | inl within ↦
          let front : zip (drop i xs) (drop i (h.cell q))
              ≡ put (zip (drop (i + 1) xs) (drop (i + 1) (h.cell q))) =
            ap₂ zip (drop_at i xs 0 room)
              (drop_at i (h.cell q) 0 (omega (arith, ltb→lt i (length (h.cell q)) within))) in
          elim (combine_loop-cases op left (i + 1) h₁ p q
            (omega (arith, ap length now, length-set xs i v))) [
              | inl c ↦ inl (record {
                bytes = v ∷ c.bytes;
                heap = c.heap;
                zipped = front ∙ ap put (later ∙ c.zipped);
                ran = rw within c.ran;
                written =
                    c.written
                    ∙ ap (λ t. t ++ c.bytes) (ap (take (i + 1)) now ∙ take-set i xs v room)
                    ∙ append_assoc (take i xs) (v ∷ []) c.bytes;
                others = λ o ne. c.others o ne ∙ cell-store_ne h p o (set xs i v) ne;
              })
              | inr c ↦
                  inr (record { zipped = front ∙ ap put (later ∙ c.zipped); ran = rw within c.ran })
            ]
      | inr out ↦ inr (record {
        zipped = ap₂ zip (drop_at i xs 0 room) (drop_out i (h.cell q) (ground (arith, out)));
        ran = rw out refl;
      })
    ]

-- What a call of one of the in-place operations leaves of its receiver.
abbrev pub seen : FilterRef → Result FilterError Heap → Result FilterError BloomFilter
seen r res = elim res [ ok h ↦ ok (view h r) | err e ↦ err e | panic ↦ panic ]

-- `Union`, `Intersection`, `Difference` and `XOR` in place, on a receiver and an argument that may
-- share their array or even be the same filter: the receiver ends as `combine` says of the two
-- contents from before the call, with its errors and its panic.
pub seen-combine :
    (op : ℕ → ℕ → ℕ) (h : Heap) (r q : FilterRef)
    → seen r (combine op h r (some q)) ≡ Ops.combine op (view h r) (some (view h q))
unfolding combine Ops.combine mismatch
seen-combine op h r q =
    elim (combine_loop-cases op (length (h.cell r.bits)) 0 h r.bits q.bits (omega arith)) [
      | inl c ↦ ground (arith, c.ran, c.zipped, c.written)
      | inr c ↦ ground (arith, c.ran, c.zipped)
    ]

-- They write no other filter's array.
pub view-combine_other :
    (op : ℕ → ℕ → ℕ) (h : Heap) (r q o : FilterRef) {h' : Heap}
    → r.bits ≢ o.bits
    → combine op h r (some q) ≡ ok h'
    → view h' o ≡ view h o
unfolding combine
view-combine_other op h r q o {h'} ne e =
    elim (combine_loop-cases op (length (h.cell r.bits)) 0 h r.bits q.bits (omega arith)) [
      | inl c ↦
          let same : c.heap ≡ h' = ground (arith, c.ran, e) in
          ap (λ (g : Heap). view g o) (sym same)
          ∙ ap (λ bits. record { m = o.m; k = o.k; bits = bits }) (c.others o.bits ne)
      | inr c ↦ absurd (ground (arith, c.ran, e))
    ]
