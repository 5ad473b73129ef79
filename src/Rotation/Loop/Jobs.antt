-- ===== src/Rotation/Loop/Jobs.antt =====
-- What the holder of the mutex of a rotating filter does, step by step, on well-formed filters.
use bloom_filter_jyy_0098_go.Base.{
  ℕ, ◌+◌, ◌%◌, ◌<◌, ◌≡◌, refl, ap, ◌∙◌, Option, some, none, List, [], ◌∷◌, ◌++◌, All, All-set,
  IsByte, length, length-set, set, ok, err, inl, inr, ◌⊎◌, ◌||◌, ltb, ◌==◌, ltb→lt, arith,
  Bool-cases, if◌then◌else◌,
}
use bloom_filter_jyy_0098_go.Float.{Floats}
use bloom_filter_jyy_0098_go.Filter.{
  BloomFilter, FilterError, invalid_params, bits_length_mismatch, bytes_for, new_from_parts,
}
use bloom_filter_jyy_0098_go.Filter.Valid.{new_from_parts-IsValid, new_from_parts_ok}
use bloom_filter_jyy_0098_go.Partition.{PartitionedFilter, partition}
use bloom_filter_jyy_0098_go.Partition.Valid.{
  IsPartitioned, IsPart, part_at, cleared, reset_partition-IsPartitioned,
}
use bloom_filter_jyy_0098_go.Rotation.{
  RotatingFilter, RotationEvent, Strategy, round_robin, saturation,
}
use bloom_filter_jyy_0098_go.Rotation.Cycle.{IsRotating, saturation-ok, some_left}
use bloom_filter_jyy_0098_go.Rotation.Loop.Later.{
  or_self, IsLater-same, InRange, IsAdvanced, Advances, same-IsAdvanced,
}
use bloom_filter_jyy_0098_go.Rotation.Loop.{
  Job, rotating, scanning, resetting, snapping, restoring, advance, choose, scan, logged, reset_at,
  snap_at, restore_at,
}

module _ (fl : Floats) where
  open fl use {F}

  logged-ok :
      (now idx : ℕ) (sat : F) (rf : RotatingFilter fl) (c : ℕ)
      → IsRotating fl rf
      → idx < rf.pf.count
      → c < rf.pf.count
      → Advances fl rf (logged fl now idx sat (record rf { current = c }))
  unfolding logged
  logged-ok now idx sat rf c r h b =
      let event : RotationEvent fl = record {
        timestamp = now;
        partition = idx;
        strategy = rf.strategy;
        before = sat;
      } in
      (
        record rf { current = c; history = rf.history ++ event ∷ [] },
        some (resetting idx),
        refl,
        record {
          rotating = record { valid = r.valid; in_range = b };
          job = h;
          later = record { events = event ∷ []; history = refl; stopped = or_self rf.stopped };
          stopped = refl;
        },
      )

  choose-ok :
      (s : Strategy) (now : ℕ) (rf : RotatingFilter fl)
      → IsRotating fl rf
      → Advances fl rf (choose fl s now rf)
  unfolding choose
  choose-ok saturation now rf r = (
    rf,
    some (scanning 0 (fl.decimal 0 0) 0),
    refl,
    same-IsAdvanced fl rf (some (scanning 0 (fl.decimal 0 0) 0)) r r.valid.some_parts,
  )
  choose-ok round_robin now rf r =
      let s = saturation-ok fl rf.pf rf.current r.valid r.in_range in
      let c = (rf.current + 1) % rf.pf.count in
      rw (choose, s.1) (logged-ok now rf.current s.0 rf c r r.in_range (omega (arith, r.in_range)))

  scan-ok :
      (now i : ℕ) (max_sat : F) (max_idx : ℕ) (rf : RotatingFilter fl)
      → IsRotating fl rf
      → max_idx < rf.pf.count
      → Advances fl rf (scan fl now i max_sat max_idx rf)
  unfolding scan
  scan-ok now i max_sat max_idx rf r h = elim (Bool-cases (ltb i rf.pf.count)) [
    | inl more ↦
        let b = ltb→lt i rf.pf.count more in
        let s = saturation-ok fl rf.pf i r.valid b in
        let next : Option (Job fl) = some (
          scanning (i + 1) (if fl.lt max_sat s.0 then s.0 else max_sat)
            (if fl.lt max_sat s.0 then i else max_idx)) in
        (rf, next, rw (more, s.1) refl, same-IsAdvanced fl rf next r (ground (arith, b, h)))
    | inr all ↦ elim (Bool-cases (fl.lt max_sat rf.limit)) [
      | inl low ↦ (rf, none, rw (all, low) refl, same-IsAdvanced fl rf none r tt)
      | inr high ↦ rw (all, high) (logged-ok now max_idx max_sat rf rf.current r h r.in_range)
    ]
  ]

  reset_at-ok :
      (idx : ℕ) (rf : RotatingFilter fl)
      → IsRotating fl rf
      → idx < rf.pf.count
      → Advances fl rf (reset_at fl idx rf)
  unfolding reset_at
  reset_at-ok idx rf r h =
      let t = reset_partition-IsPartitioned rf.pf idx r.valid h in
      (
        record rf { pf = cleared rf.pf idx },
        none,
        rw (reset_at, t.0) refl,
        record {
          rotating = record { valid = t.1; in_range = r.in_range };
          job = tt;
          later = IsLater-same fl rf (record rf { pf = cleared rf.pf idx }) refl refl;
          stopped = refl;
        },
      )

  snap_at-ok :
      (i : ℕ) (rf : RotatingFilter fl) → IsRotating fl rf → Advances fl rf (snap_at fl i rf)
  unfolding snap_at partition
  snap_at-ok i rf r = elim (Bool-cases (ltb i rf.pf.count)) [
    | inl more ↦
        let b = ltb→lt i rf.pf.count more in
        let p = part_at rf.pf.partitions i r.valid.parts (omega (arith, r.valid.sized)) in
        (
          rf,
          some (snapping (i + 1)),
          ground (arith, more, b, p.is, r.valid.sized),
          same-IsAdvanced fl rf (some (snapping (i + 1))) r tt,
        )
    | inr all ↦ (rf, none, rw all refl, same-IsAdvanced fl rf none r tt)
  ]

  -- The filter with a restored sub-filter at an index.
  restored-IsPartitioned :
      (f : PartitionedFilter) (i : ℕ) (bits : List ℕ) (bf : BloomFilter)
      → IsPartitioned f
      → All IsByte bits
      → new_from_parts f.m f.k bits ≡ ok bf
      → IsPartitioned (record f { partitions = set f.partitions i (some bf) })
  restored-IsPartitioned f i bits bf v h e =
      let made = new_from_parts_ok f.m f.k bits e in
      record {
        some_parts = v.some_parts;
        few_parts = v.few_parts;
        m_pos = v.m_pos;
        m_fits = v.m_fits;
        k_pos = v.k_pos;
        k_fits = v.k_fits;
        sized = length-set f.partitions i (some bf) ∙ v.sized;
        parts = All-set (IsPart f.m f.k) f.partitions i (some bf) v.parts (record {
          part = bf;
          is = refl;
          valid = new_from_parts-IsValid f.m f.k bits v.m_fits v.k_fits h e;
          same_m = ap (λ (b : BloomFilter). b.m) made.3;
          same_k = ap (λ (b : BloomFilter). b.k) made.3;
        });
      }

  new_from_parts-cases :
      (m k : ℕ) (bits : List ℕ)
      → ((bf : BloomFilter) × (new_from_parts m k bits ≡ ok bf))
        ⊎ ((e : FilterError) × (new_from_parts m k bits ≡ err e))
  unfolding new_from_parts
  new_from_parts-cases m k bits = elim (Bool-cases (m == 0 || k == 0)) [
    | inl none_set ↦ inr (invalid_params, rw none_set refl)
    | inr given ↦ elim (Bool-cases (length bits == bytes_for m)) [
      | inl fits ↦ inl (record { m = m; k = k; bits = bits }, rw (given, fits) refl)
      | inr differs ↦ inr (bits_length_mismatch, rw (given, differs) refl)
    ]
  ]

  restore_at-ok :
      (i : ℕ) (left : List (List ℕ)) (rf : RotatingFilter fl)
      → IsRotating fl rf
      → InRange fl rf.pf.count (restoring i left)
      → Advances fl rf (restore_at fl i left rf)
  unfolding restore_at
  restore_at-ok i [] rf r h = (rf, none, refl, same-IsAdvanced fl rf none r tt)
  restore_at-ok i (bits ∷ left) rf r h = elim (new_from_parts-cases rf.pf.m rf.pf.k bits) [
    | inl good ↦
        let bf = good.0 in
        let rf' = record rf {
          pf = record (rf.pf) { partitions = set rf.pf.partitions i (some bf) };
        } in
        (
          rf',
          some (restoring (i + 1) left),
          ground (arith, good.1, r.valid.sized, h.1),
          record {
            rotating = record {
              valid = restored-IsPartitioned rf.pf i bits bf r.valid h.0.0 good.1;
              in_range = r.in_range;
            };
            job = (h.0.1, omega (arith, h.1));
            later = IsLater-same fl rf rf' refl refl;
            stopped = refl;
          },
        )
    | inr bad ↦ (rf, none, rw (restore_at, bad.1) refl, same-IsAdvanced fl rf none r tt)
  ]

  -- The holder of the mutex never panics, and leaves a well-formed filter and a job in range.
  pub advance-ok :
      (now : ℕ) (j : Job fl) (rf : RotatingFilter fl)
      → IsRotating fl rf
      → InRange fl rf.pf.count j
      → (rf' : RotatingFilter fl) × (next : Option (Job fl)) × (advance fl now j rf
          ≡ some (rf', next))
        × IsAdvanced fl rf rf' next
  unfolding advance
  advance-ok now rotating rf r h = rw (some_left fl rf r) (choose-ok rf.strategy now rf r)
  advance-ok now (scanning i max_sat max_idx) rf r h = scan-ok now i max_sat max_idx rf r h
  advance-ok now (resetting idx) rf r h = reset_at-ok idx rf r h
  advance-ok now (snapping i) rf r h = snap_at-ok i rf r
  advance-ok now (restoring i left) rf r h = restore_at-ok i left rf r h
