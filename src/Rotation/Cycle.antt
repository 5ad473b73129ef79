-- ===== src/Rotation/Cycle.antt =====
-- Rotations of rotation.go on well-formed filters: what one of them does, and what several
-- round-robin rotations in a row do.
use bloom_filter_jyy_0098_go.Base.{
  ℕ, zero, suc, ◌+◌, ◌%◌, ◌<◌, ◌≤◌, ◌≡◌, refl, [], ◌∷◌, ◌++◌, arith, ok, if◌then◌else◌, ◌==◌,
  Bool-cases, inl, inr, ◌⊎◌, false,
}
use bloom_filter_jyy_0098_go.Float.{Floats}
use bloom_filter_jyy_0098_go.Partition.{PartitionedFilter}
use bloom_filter_jyy_0098_go.Partition.Valid.{
  IsPartitioned, part_at, cleared, reset_partition-IsPartitioned,
}
use bloom_filter_jyy_0098_go.Rotation.{
  RotatingFilter, RotationEvent, Strategy, round_robin, saturation, rotate_once, rotate_at,
  rotate_next, rotate_saturated, saturation_or_zero, most_loop, most_saturated, count_bytes,
  rotate_with,
}

module _ (fl : Floats) where
  open fl use {F}

  -- The partitioned filter is well-formed, and the next partition to reset is one of its own.
  pub record IsRotating (rf : RotatingFilter fl) : Type 0 where
    pub valid : IsPartitioned rf.pf
    pub in_range : rf.current < rf.pf.count

  -- A sub-filter in range is there, so that its saturation is a number.
  pub saturation-ok :
      (f : PartitionedFilter) (i : ℕ)
      → IsPartitioned f
      → i < f.count
      → (s : F) × (saturation_or_zero fl f i ≡ ok s)
  unfolding saturation_or_zero
  saturation-ok f i v h =
      let p = part_at f.partitions i v.parts (omega (arith, v.sized)) in
      (fl.div (fl.of_int (count_bytes p.part.bits 0)) (fl.of_uint f.m), ground (arith, p.is))

  most_loop-ok :
      (f : PartitionedFilter) (left i : ℕ) (s : F) (idx : ℕ)
      → IsPartitioned f
      → i + left ≤ f.count
      → idx < f.count
      → (found : ℕ × F) × (most_loop fl f left i s idx ≡ ok found) × (found.0 < f.count)
  unfolding most_loop
  most_loop-ok f zero i s idx v room h = ((idx, s), refl, h)
  most_loop-ok f (suc left) i s idx v room h =
      let here = saturation-ok f i v (omega arith) in
      let rest =
        most_loop-ok f left (i + 1) (if fl.lt s here.0 then here.0 else s)
          (if fl.lt s here.0 then i else idx) v (omega arith) (ground arith) in
      (rest.0, ground (arith, here.1, rest.1), rest.2)

  -- The partition at index i of `rf` was replaced by a new one; the strategy stays.
  pub record IsTurned (i : ℕ) (rf rf' : RotatingFilter fl) : Type 0 where
    pub partition : rf'.pf ≡ cleared rf.pf i
    pub strategy : rf'.strategy ≡ rf.strategy
    pub event : RotationEvent fl
    pub logged : rf'.history ≡ rf.history ++ event ∷ []
    pub event_of : event.partition ≡ i
    pub flags : rf'.stopped ≡ rf.stopped

  -- What `rotate_at` leaves, with the event written out.
  abbrev pub turned : ℕ → RotatingFilter fl → ℕ → F → RotatingFilter fl
  turned now rf i s = record rf {
    pf = cleared rf.pf i;
    history =
        rf.history
        ++ (record { timestamp = now; partition = i; strategy = rf.strategy; before = s }) ∷ [];
  }

  pub rotate_at-eq-turned :
      (now : ℕ) (rf : RotatingFilter fl) (i : ℕ) (s : F)
      → IsPartitioned rf.pf
      → i < rf.pf.count
      → rotate_at fl now rf i s ≡ ok (turned now rf i s)
  unfolding rotate_at
  rotate_at-eq-turned now rf i s v h =
      rw (rotate_at, (reset_partition-IsPartitioned rf.pf i v h).0) refl

  turned-IsTurned :
      (now : ℕ) (rf : RotatingFilter fl) (i : ℕ) (s : F) → IsTurned i rf (turned now rf i s)
  turned-IsTurned now rf i s = record {
    partition = refl;
    strategy = refl;
    event = record { timestamp = now; partition = i; strategy = rf.strategy; before = s };
    logged = refl;
    event_of = refl;
    flags = refl;
  }

  turned-IsRotating :
      (now : ℕ) (rf : RotatingFilter fl) (i : ℕ) (s : F) (c : ℕ)
      → IsPartitioned rf.pf
      → i < rf.pf.count
      → c < rf.pf.count
      → IsRotating (record (turned now rf i s) { current = c })
  turned-IsRotating now rf i s c v h b = record {
    valid = (reset_partition-IsPartitioned rf.pf i v h).1;
    in_range = b;
  }

  -- The index after `c` in a round of n.
  next_of : (n c : ℕ) → c < n → (c + 1) % n < n
  next_of n c h = omega arith

  -- A round-robin rotation resets the partition that is next, and moves on to the one after it.
  pub rotate_next-ok :
      (now : ℕ) (rf : RotatingFilter fl)
      → IsRotating rf
      → (rf' : RotatingFilter fl) × (rotate_next fl now rf ≡ ok rf')
        × IsRotating rf'
        × IsTurned rf.current rf rf'
        × (rf'.current ≡ (rf.current + 1) % rf.pf.count)
  unfolding rotate_next
  rotate_next-ok now rf r =
      let s = saturation-ok rf.pf rf.current r.valid r.in_range in
      let c = (rf.current + 1) % rf.pf.count in
      let moved = record rf { current = c } in
      let b = next_of rf.pf.count rf.current r.in_range in
      (
        turned now moved rf.current s.0,
        rw (s.1) (rotate_at-eq-turned now moved rf.current s.0 r.valid r.in_range),
        turned-IsRotating now rf rf.current s.0 c r.valid r.in_range b,
        record {
          partition = refl;
          strategy = refl;
          event = record {
            timestamp = now;
            partition = rf.current;
            strategy = rf.strategy;
            before = s.0;
          };
          logged = refl;
          event_of = refl;
          flags = refl;
        },
        refl,
      )

  rotate_saturated-ok :
      (now : ℕ) (rf : RotatingFilter fl)
      → IsRotating rf
      → (rf' : RotatingFilter fl) × (rotate_saturated fl now rf ≡ ok rf')
        × IsRotating rf'
        × ((rf' ≡ rf) ⊎ ((i : ℕ) × (i < rf.pf.count) × IsTurned i rf rf'))
  unfolding rotate_saturated most_saturated
  rotate_saturated-ok now rf r =
      let found =
        most_loop-ok rf.pf rf.pf.count 0 (fl.decimal 0 0) 0 r.valid (omega arith)
          r.valid.some_parts in
      let i = found.0.0 in
      let s = found.0.1 in
      elim (Bool-cases (fl.lt s rf.limit)) [
        | inl low ↦ (rf, rw (found.1, low) refl, r, inl refl)
        | inr high ↦ (
          turned now rf i s,
          rw (found.1, high) (rotate_at-eq-turned now rf i s r.valid found.2),
          turned-IsRotating now rf i s rf.current r.valid found.2 r.in_range,
          inr (i, found.2, turned-IsTurned now rf i s),
        )
      ]

  rotate_with-ok :
      (s : Strategy) (now : ℕ) (rf : RotatingFilter fl)
      → IsRotating rf
      → (rf' : RotatingFilter fl) × (rotate_with fl s now rf ≡ ok rf')
        × IsRotating rf'
        × ((rf' ≡ rf) ⊎ ((i : ℕ) × (i < rf.pf.count) × IsTurned i rf rf'))
  unfolding rotate_with
  rotate_with-ok saturation now rf r = rotate_saturated-ok now rf r
  rotate_with-ok round_robin now rf r =
      let t = rotate_next-ok now rf r in (t.0, t.1, t.2, inr (rf.current, r.in_range, t.3))

  pub some_left : (rf : RotatingFilter fl) → IsRotating rf → (rf.pf.count == 0) ≡ false
  some_left rf r = ground (arith, r.valid.some_parts)

  -- `Rotate` on a well-formed rotating filter succeeds and leaves it well-formed, and under either
  -- strategy it either changes nothing or puts a new partition in place of exactly one, which it
  -- logs with one event.
  pub rotate_once-IsRotating :
      (now : ℕ) (rf : RotatingFilter fl)
      → IsRotating rf
      → (rf' : RotatingFilter fl) × (rotate_once fl now rf ≡ ok rf')
        × IsRotating rf'
        × ((rf' ≡ rf) ⊎ ((i : ℕ) × (i < rf.pf.count) × IsTurned i rf rf'))
  unfolding rotate_once
  rotate_once-IsRotating now rf r =
      let t = rotate_with-ok rf.strategy now rf r in (t.0, rw (some_left rf r) t.1, t.2, t.3)
