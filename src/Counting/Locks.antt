-- ===== src/Counting/Locks.antt =====
-- The locks of `Merge` of snapshot.go among other calls: it takes the write lock of its receiver, then
-- the read lock of its argument. Each filter has its own `sync.RWMutex`.
use bloom_filter_jyy_0098_go.Base.{
  ℕ, suc, ◌-◌, ◌<◌, ◌≡◌, ◌≢◌, refl, ap, ◌∙◌, ◌==◌, ==_refl, ne→==, if◌then◌else◌, arith,
}
use native.Mathlib.Decide.{ℕ_discrete}

-- Who holds the write lock: nobody, the call of `Merge`, or a call of another goroutine.
pub data Holder : Type 0 where
  nobody this_merge another : Holder

pub record Mutex : Type 0 where
  pub holder : Holder
  pub readers : ℕ

-- How far the call of `Merge` is: not begun, with the write lock, with both locks, returned.
pub data Phase : Type 0 where
  called write_locked both_locked returned : Phase

-- The mutexes, by the filter they belong to.
pub record Locks : Type 0 where
  pub mutex : ℕ → Mutex
  pub phase : Phase

unfoldable pub update : (ℕ → Mutex) → ℕ → Mutex → ℕ → Mutex
update ms i m j = if i == j then m else ms j

abbrev pub take_write : Mutex → Holder → Mutex
take_write m who = record m { holder = who }

-- `cf.Merge(other)`, and any other calls. A lock that is not free makes a call wait: it has no step.
pub data Step (cf other : ℕ) (s : Locks) : Locks → Type 0 where
  merge_lock :
      s.phase ≡ called
      → (s.mutex cf).holder ≡ nobody
      → (s.mutex cf).readers ≡ 0
      → Step cf other s (record {
        mutex = update s.mutex cf (take_write (s.mutex cf) this_merge);
        phase = write_locked;
      })
  merge_r_lock :
      s.phase ≡ write_locked
      → (s.mutex other).holder ≡ nobody
      → Step cf other s (record {
        mutex =
            update s.mutex other (record (s.mutex other) { readers = suc (s.mutex other).readers });
        phase = both_locked;
      })
  -- The two deferred calls of `Unlock`.
  merge_return :
      s.phase ≡ both_locked
      → Step cf other s (record {
        mutex =
            update
              (update s.mutex other
                (record (s.mutex other) { readers = (s.mutex other).readers - 1 }))
              cf
              (take_write (s.mutex cf) nobody);
        phase = returned;
      })
  other_lock :
      (i : ℕ)
      → (s.mutex i).holder ≡ nobody
      → (s.mutex i).readers ≡ 0
      → Step cf other s (record s { mutex = update s.mutex i (take_write (s.mutex i) another) })
  other_unlock :
      (i : ℕ)
      → (s.mutex i).holder ≡ another
      → Step cf other s (record s { mutex = update s.mutex i (take_write (s.mutex i) nobody) })
  other_r_lock :
      (i : ℕ)
      → (s.mutex i).holder ≡ nobody
      → Step cf other s (record s {
        mutex = update s.mutex i (record (s.mutex i) { readers = suc (s.mutex i).readers });
      })
  other_r_unlock :
      (i : ℕ)
      → 0 < (s.mutex i).readers
      → Step cf other s (record s {
        mutex = update s.mutex i (record (s.mutex i) { readers = (s.mutex i).readers - 1 });
      })

pub data Reach (cf other : ℕ) (s : Locks) : Locks → Type 0 where
  here : Reach cf other s s
  later : {t u : Locks} → Reach cf other s t → Step cf other t u → Reach cf other s u

-- A merge of a filter with itself: not begun, or with the write lock.
data IsStuck (cf : ℕ) (s : Locks) : Type 0 where
  before : s.phase ≡ called → IsStuck cf s
  holding : s.phase ≡ write_locked → (s.mutex cf).holder ≡ this_merge → IsStuck cf s

holder-update_self : (ms : ℕ → Mutex) (i : ℕ) (m : Mutex) → (update ms i m i).holder ≡ m.holder
unfolding update
holder-update_self ms i m = rw (==_refl i) refl

-- A write that does not take the lock from its holder.
holder-update :
    (ms : ℕ → Mutex) (i j : ℕ) (m : Mutex)
    → (i ≡ j → m.holder ≡ (ms j).holder)
    → (update ms i m j).holder ≡ (ms j).holder
unfolding update
holder-update ms i j m keep = elim (ℕ_discrete i j) [
  | yes e ↦ rw (e, ==_refl j) (keep e)
  | no ne ↦ rw (ne→== i j ne) refl
]

Step-IsStuck : {cf : ℕ} {s t : Locks} → IsStuck cf s → Step cf cf s t → IsStuck cf t
Step-IsStuck {cf} {s} (before p) (merge_lock q free none_reads) =
    holding refl (holder-update_self s.mutex cf (take_write (s.mutex cf) this_merge))
Step-IsStuck {cf} {s} (before p) (merge_r_lock q free) = absurd (ground (arith, p, q))
Step-IsStuck {cf} {s} (before p) (merge_return q) = absurd (ground (arith, p, q))
Step-IsStuck {cf} {s} (before p) (other_lock i free none_reads) = before p
Step-IsStuck {cf} {s} (before p) (other_unlock i held) = before p
Step-IsStuck {cf} {s} (before p) (other_r_lock i free) = before p
Step-IsStuck {cf} {s} (before p) (other_r_unlock i some_read) = before p
Step-IsStuck {cf} {s} (holding p h) (merge_lock q free none_reads) = absurd (ground (arith, p, q))
Step-IsStuck {cf} {s} (holding p h) (merge_r_lock q free) = absurd (ground (arith, h, free))
Step-IsStuck {cf} {s} (holding p h) (merge_return q) = absurd (ground (arith, p, q))
Step-IsStuck {cf} {s} (holding p h) (other_lock i free none_reads) = holding p (
    holder-update s.mutex i cf (take_write (s.mutex i) another)
      (λ e. absurd (ground (arith, free, h, ap (λ j. (s.mutex j).holder) e)))
    ∙ h)
Step-IsStuck {cf} {s} (holding p h) (other_unlock i held) = holding p (
    holder-update s.mutex i cf (take_write (s.mutex i) nobody)
      (λ e. absurd (ground (arith, held, h, ap (λ j. (s.mutex j).holder) e)))
    ∙ h)
Step-IsStuck {cf} {s} (holding p h) (other_r_lock i free) = holding p (
    holder-update s.mutex i cf (record (s.mutex i) { readers = suc (s.mutex i).readers })
      (λ e. ap (λ j. (s.mutex j).holder) e)
    ∙ h)
Step-IsStuck {cf} {s} (holding p h) (other_r_unlock i some_read) = holding p (
    holder-update s.mutex i cf (record (s.mutex i) { readers = (s.mutex i).readers - 1 })
      (λ e. ap (λ j. (s.mutex j).holder) e)
    ∙ h)

Reach-IsStuck : {cf : ℕ} {s t : Locks} → IsStuck cf s → Reach cf cf s t → IsStuck cf t
Reach-IsStuck h here = h
Reach-IsStuck h (later run step) = Step-IsStuck (Reach-IsStuck h run) step

not_returned : {cf : ℕ} {t : Locks} → IsStuck cf t → t.phase ≢ returned
not_returned (before p) e = absurd (ground (arith, p, e))
not_returned (holding p h) e = absurd (ground (arith, p, e))

-- `Merge` of a filter with itself never returns, whatever the other goroutines do: it waits for the
-- read lock of the mutex that it has locked for writing.
pub merge_self : (cf : ℕ) (s t : Locks) → s.phase ≡ called → Reach cf cf s t → t.phase ≢ returned
merge_self cf s t p run = not_returned (Reach-IsStuck (before p) run)
