-- ===== src/Rotation/Restoring.antt =====
-- `Snapshot` and `Restore` of rotation.go.
use bloom_filter_jyy_0098_go.Base.{
  ==_iff, ℕ, ◌+◌, ◌≡◌, refl, List, [], ◌∷◌, ◌++◌, length, set, arith, ok, none, some, Option, ◌∙◌,
  ap, sym, All, append_assoc, length-append, ap₂,
}
use bloom_filter_jyy_0098_go.Float.{Floats}
use bloom_filter_jyy_0098_go.Filter.{BloomFilter, new_from_parts}
use bloom_filter_jyy_0098_go.Filter.Valid.{IsValid}
use bloom_filter_jyy_0098_go.Partition.{PartitionedFilter}
use bloom_filter_jyy_0098_go.Partition.Valid.{IsPart}
use bloom_filter_jyy_0098_go.Rotation.{RotatingFilter, bits_of, snapshot, restore, restore_loop}
use bloom_filter_jyy_0098_go.Rotation.Cycle.{IsRotating}

new_from_parts-bits : (f : BloomFilter) → IsValid f → new_from_parts f.m f.k f.bits ≡ ok f
unfolding new_from_parts
new_from_parts-bits f v = ground (arith, v.sized, v.m_pos, v.k_pos, v.m_fits)

set-append :
    {A : Type 0} (xs : List A) (y : A) (ys : List A) (v : A)
    → set (xs ++ y ∷ ys) (length xs) v ≡ xs ++ v ∷ ys
set-append [] y ys v = refl
set-append (x ∷ xs) y ys v = ap (λ l. x ∷ l) (set-append xs y ys v)

new_from_parts-part :
    (m k : ℕ) {p : Option BloomFilter} (h : IsPart m k p)
    → new_from_parts m k h.part.bits ≡ ok h.part
new_from_parts-part m k h =
    ap₂ (λ m k. new_from_parts m k h.part.bits) (sym h.same_m) (sym h.same_k)
    ∙ new_from_parts-bits h.part h.valid

module _ (fl : Floats) where
  bits_of-parts :
      (m k : ℕ) (ps : List (Option BloomFilter))
      → All (IsPart m k) ps
      → (snap : List (List ℕ)) × (bits_of fl ps ≡ some snap) × (length snap ≡ length ps)
  unfolding bits_of
  bits_of-parts m k [] h = ([], refl, refl)
  bits_of-parts m k (p ∷ ps) h =
      let rest = bits_of-parts m k ps h.1 in
      (h.0.part.bits ∷ rest.0, rw (h.0.is, rest.1) refl, omega (arith, rest.2))

  -- The sub-filters before index i are restored, those from there on are not yet.
  restore_loop-parts :
      (ps done old : List (Option BloomFilter)) (f : PartitionedFilter) (i : ℕ)
      → f.partitions ≡ done ++ old
      → length old ≡ length ps
      → i ≡ length done
      → (h : All (IsPart f.m f.k) ps)
      → restore_loop fl f i (bits_of-parts f.m f.k ps h).0
        ≡ (record f { partitions = done ++ ps }, none)
  unfolding bits_of-parts restore_loop
  restore_loop-parts [] done [] f i at n b h = ap (λ ps. (record f { partitions = ps }, none)) at
  restore_loop-parts [] done (o ∷ old) f i at n b h = absurd (omega arith)
  restore_loop-parts (p ∷ ps) done [] f i at n b h = absurd (omega arith)
  restore_loop-parts (p ∷ ps) done (o ∷ old) f i at n b h =
      let q = h.0.part in
      let now : set f.partitions i (some q) ≡ (done ++ some q ∷ []) ++ old =
        ap₂ (λ l i. set l i (some q)) at b
        ∙ set-append done o old (some q)
        ∙ sym (append_assoc done (some q ∷ []) old) in
      let rest =
        restore_loop-parts ps (done ++ some q ∷ []) old
          (record f { partitions = set f.partitions i (some q) }) (i + 1) now (omega arith)
          (omega (arith, length-append done (some q ∷ []))) h.1 in
      rw (restore_loop, new_from_parts-part f.m f.k h.0)
        (rest
          ∙ ap (λ ps. (record f { partitions = ps }, none))
              (append_assoc done (some q ∷ []) ps ∙ ap (λ p. done ++ p ∷ ps) (sym h.0.is)))

  -- `Snapshot` of a well-formed rotating filter does not panic, and `Restore` of what it returns
  -- into a well-formed one of the same parameters succeeds and gives it the partitions of the first.
  pub restore-snapshot :
      (rf other : RotatingFilter fl)
      → IsRotating fl rf
      → IsRotating fl other
      → other.pf.count ≡ rf.pf.count
      → other.pf.m ≡ rf.pf.m
      → other.pf.k ≡ rf.pf.k
      → (snap : List (List ℕ)) × (snapshot fl rf ≡ some snap)
        × (restore fl other snap ≡ (record other { pf = rf.pf }, none))
  unfolding snapshot restore
  restore-snapshot rf other r o n em ek =
      let parts : All (IsPart other.pf.m other.pf.k) rf.pf.partitions = rw (em, ek) r.valid.parts in
      let snap = bits_of-parts other.pf.m other.pf.k rf.pf.partitions parts in
      let same_pf : record other.pf { partitions = rf.pf.partitions } ≡ rf.pf =
        λ j. record { partitions = rf.pf.partitions; count = n j; m = em j; k = ek j } in
      let same : length snap.0 ≡ other.pf.count = omega (arith, snap.2, r.valid.sized, n) in
      (
        snap.0,
        snap.1,
        rw
            (
              restore,
              (==_iff (length snap.0) other.pf.count).1 same,
              restore_loop-parts rf.pf.partitions [] other.pf.partitions other.pf 0 refl
                  (omega (arith, r.valid.sized, o.valid.sized)) refl parts,
            )
            (λ j. (record other { pf = same_pf j }, none)),
      )
