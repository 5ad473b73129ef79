-- ===== src/Rotation/Round.antt =====
-- A round of round-robin rotations of rotation.go: which partitions are new after several of them,
-- and what `Test` then reports.
use bloom_filter_jyy_0098_go.Base.{
  ℕ, suc, ◌+◌, ◌-◌, ◌%◌, ◌<◌, ◌≤◌, ◌≡◌, ◌≢◌, refl, ap, sym, subst, ◌∙◌, Option, none, List, [], ◌∷◌,
  length, get_or, set, arith, ok, ltb, leb, if◌then◌else◌, get_or-set_self, get_or-set_ne, ◌>>=◌,
  Result, ◌⊎◌, inl, inr, ap₂,
}
use native.Mathlib.Decide.{ℕ_discrete}
use bloom_filter_jyy_0098_go.Float.{Floats}
use bloom_filter_jyy_0098_go.Filter.{BloomFilter}
use bloom_filter_jyy_0098_go.Partition.{new_part}
use bloom_filter_jyy_0098_go.Rotation.{
  RotatingFilter, RotationError, round_robin, rotate_once, rotate_with,
}
use bloom_filter_jyy_0098_go.Rotation.Cycle.{IsRotating, IsTurned, rotate_next-ok, some_left}

-- How many rotations come before the one that resets partition i, out of n, when `c` is next.
unfoldable pub turns_before : ℕ → ℕ → ℕ → ℕ
turns_before n c i = if leb c i then i - c else i + n - c

-- The index after c in a round of n.
next-cases :
    (n c : ℕ) → c < n → ((c + 1 < n) × ((c + 1) % n ≡ c + 1)) ⊎ ((c + 1 ≡ n) × ((c + 1) % n ≡ 0))
next-cases n c h = elim (ℕ_discrete (c + 1) n) [
  | yes e ↦ inr (e, subst (λ a. a % n ≡ 0) (sym e) (wrap n h))
  | no ne ↦ inl (omega arith, small (c + 1) n (omega arith))
]
  where
    wrap : (n : ℕ) {c : ℕ} → c < n → n % n ≡ 0
    wrap n h = grind arith

    small : (a n : ℕ) → a < n → a % n ≡ a
    small a n h = grind arith

turns_before-next :
    (n c i : ℕ) → c < n → i < n → c ≢ i → turns_before n c i ≡ suc (turns_before n ((c + 1) % n) i)
unfolding turns_before
turns_before-next n c i h b ne = elim (next-cases n c h) [
  | inl on ↦ rw (on.1) (ground arith)
  | inr end ↦ rw (end.1) (ground arith)
]

turns_before_self : (n c : ℕ) → c < n → turns_before n c c ≡ 0
unfolding turns_before
turns_before_self n c h = ground arith

turns_before-last : (n c : ℕ) → c < n → turns_before n ((c + 1) % n) c ≡ n - 1
unfolding turns_before
turns_before-last n c h = elim (next-cases n c h) [
  | inl on ↦ rw (on.1) (ground arith)
  | inr end ↦ rw (end.1) (ground arith)
]

pub turns_before-lt : (n c i : ℕ) → c < n → i < n → turns_before n c i < n
unfolding turns_before
turns_before-lt n c i h b = ground arith

module _ (fl : Floats) where
  -- Several calls of `Rotate`, at the given times.
  unfoldable pub rotate_all : List ℕ → RotatingFilter fl → Result RotationError (RotatingFilter fl)
  rotate_all [] rf = ok rf
  rotate_all (now ∷ times) rf = do rf' ← rotate_once fl now rf; rotate_all times rf'

  -- What n rotations leave: the partitions whose turn came are new, the others are as they were.
  pub record IsAfter (n : ℕ) (rf rf' : RotatingFilter fl) : Type 0 where
    pub rotating : IsRotating fl rf'
    pub same_count : rf'.pf.count ≡ rf.pf.count
    pub part :
        (i : ℕ)
        → i < rf.pf.count
        → get_or rf'.pf.partitions i none ≡ (
            if ltb (turns_before rf.pf.count rf.current i) n
            then new_part rf.pf.m rf.pf.k
            else get_or rf.pf.partitions i none)

  rotate_once-round_robin :
      (now : ℕ) (rf : RotatingFilter fl)
      → IsRotating fl rf
      → rf.strategy ≡ round_robin
      → (rf' : RotatingFilter fl) × (rotate_once fl now rf ≡ ok rf')
        × IsRotating fl rf'
        × IsTurned fl rf.current rf rf'
        × (rf'.current ≡ (rf.current + 1) % rf.pf.count)
  unfolding rotate_once rotate_with
  rotate_once-round_robin now rf r e =
      let t = rotate_next-ok fl now rf r in
      (t.0, rw (some_left fl rf r) (ap (λ s. rotate_with fl s now rf) e ∙ t.1), t.2, t.3, t.4)

  -- Whose turn comes among suc n rotations: the next one, or one whose turn comes among n later.
  part-step :
      (n c total i : ℕ) (ps : List (Option BloomFilter)) (new : Option BloomFilter)
      → total ≡ length ps
      → c < total
      → i < total
      → suc n ≤ total
      → (if ltb (turns_before total ((c + 1) % total) i) n
          then new
          else get_or (set ps c new) i none)
        ≡ (if ltb (turns_before total c i) (suc n) then new else get_or ps i none)
  part-step n c total i ps new e h b room = elim (ℕ_discrete c i) [
    | yes same ↦
        subst
          (λ j.
            (if ltb (turns_before total ((c + 1) % total) j) n
              then new
              else get_or (set ps c new) j none)
            ≡ (if ltb (turns_before total c j) (suc n) then new else get_or ps j none))
          same
          (rw (turns_before_self total c h, turns_before-last total c h)
            (ground (arith, get_or-set_self ps c new none (omega arith))))
    | no differ ↦
        rw (turns_before-next total c i h b differ, get_or-set_ne ps c i new none differ)
          (ground arith)
  ]

  pub rotate_all-IsAfter :
      (times : List ℕ) (rf : RotatingFilter fl)
      → IsRotating fl rf
      → rf.strategy ≡ round_robin
      → length times ≤ rf.pf.count
      → (rf' : RotatingFilter fl) × (rotate_all times rf ≡ ok rf') × IsAfter (length times) rf rf'
  unfolding rotate_all
  rotate_all-IsAfter [] rf r e h =
      (rf, refl, record { rotating = r; same_count = refl; part = λ i b. ground arith })
  rotate_all-IsAfter (now ∷ times) rf r e h =
      let one = rotate_once-round_robin now rf r e in
      let turn = one.3 in
      let rest =
        rotate_all-IsAfter times one.0 one.2 (turn.strategy ∙ e)
          (rw (turn.partition) (omega arith)) in
      (
        rest.0,
        rw (one.1) rest.1,
        record {
          rotating = rest.2.rotating;
          same_count = rest.2.same_count ∙ ap (λ f. f.count) turn.partition;
          part = λ i b.
              rest.2.part i (rw (turn.partition) b)
              ∙ ap₂
                  (λ f c.
                    if ltb (turns_before f.count c i) (length times)
                    then new_part f.m f.k
                    else get_or f.partitions i none)
                  turn.partition one.4
              ∙ part-step (length times) rf.current rf.pf.count i rf.pf.partitions
                  (new_part rf.pf.m rf.pf.k) (sym r.valid.sized) r.in_range b h;
        },
      )
