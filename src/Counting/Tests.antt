-- ===== src/Counting/Tests.antt =====
-- The theorems on counting filters at a concrete one.
use bloom_filter_jyy_0098_go.Base.{
  ℕ, ◌≡◌, refl, ◌+◌, List, [], ◌∷◌, ◌++◌, arith, some, true, false, ok, err, if◌then◌else◌, ◌==◌,
  ◌<◌, replicate, min,
}
use bloom_filter_jyy_0098_go.Counting.{
  CountingFilter, new, get_counter, set_counter, add, remove, test, underflow, bad_counter_bits,
  positions, max_of, data_len,
}
use bloom_filter_jyy_0098_go.Filter.Sets.{member}
use bloom_filter_jyy_0098_go.Counting.Tallies.{IsDistinct}
use bloom_filter_jyy_0098_go.Counting.Removal.{remove-add}
use bloom_filter_jyy_0098_go.Counting.Merged.{counters-merge}
use bloom_filter_jyy_0098_go.Base.{◌≢◌}
use bloom_filter_jyy_0098_go.Base.{agree_below, agree_below-eq, All}
use bloom_filter_jyy_0098_go.Counting.Multiset.{IsTally, tally}
use bloom_filter_jyy_0098_go.Counting.Multiset.Runs.{Session, Reach-IsTally, add_returned}
use bloom_filter_jyy_0098_go.Counting.Multiset.Runs
use bloom_filter_jyy_0098_go.Counting.Locks.{
  Locks, Reach, nobody, this_merge, called, returned, write_locked, update, take_write, merge_lock,
  here, later, merge_self,
}
use bloom_filter_jyy_0098_go.Counting.Positions.{IsCounting}
use bloom_filter_jyy_0098_go.Counting.Snapshot.{marshal_snapshot, unmarshal_snapshot, merge}
use bloom_filter_jyy_0098_go.Counting.RoundTrip.{FitsSnapshot, unmarshal-marshal_snapshot}

abbrev five : CountingFilter
five = record { m = 5; k = 2; counter_bits = 3; max_count = 7; bytes = 0xc1 ∷ 0x12 ∷ []; count = 3 }

five-IsCounting : IsCounting five
unfolding bloom_filter_jyy_0098_go.Counting.max_of bloom_filter_jyy_0098_go.Counting.data_len
five-IsCounting = record {
  m_pos = omega arith;
  k_pos = omega arith;
  counter_pos = omega arith;
  counter_few = omega arith;
  no_wrap = omega arith;
  max_is = refl;
  sized = refl;
  all_bytes = omega arith;
}

new_runs : new 5 2 9 ≡ err bad_counter_bits
unfolding new
new_runs = refl

-- Position 2 takes the bits 6 to 8, across two bytes.
counter_runs : get_counter five 2 ≡ 3
unfolding get_counter bloom_filter_jyy_0098_go.Base.has_bit
counter_runs = refl

five-FitsSnapshot : FitsSnapshot five
five-FitsSnapshot = record { m_32 = omega arith; k_32 = omega arith; count_31 = omega arith }

unmarshal-marshal_snapshot_example :
    (out : List ℕ) × (marshal_snapshot (some five) ≡ ok out)
    × (unmarshal_snapshot (out ++ 1 ∷ []) ≡ ok five)
unmarshal-marshal_snapshot_example =
    unmarshal-marshal_snapshot five five-IsCounting five-FitsSnapshot (1 ∷ [])

abbrev wide : CountingFilter
wide = record {
  m = 97;
  k = 2;
  counter_bits = 8;
  max_count = 255;
  bytes = replicate 97 3;
  count = 5;
}

wide-IsCounting : IsCounting wide
unfolding max_of data_len
wide-IsCounting = record {
  m_pos = omega arith;
  k_pos = omega arith;
  counter_pos = omega arith;
  counter_few = omega arith;
  no_wrap = omega arith;
  max_is = refl;
  sized = refl;
  all_bytes = omega arith;
}

abbrev word : List ℕ
word = b'a' ∷ b'b' ∷ []

word-IsDistinct : IsDistinct (positions wide word)
unfolding positions member bloom_filter_jyy_0098_go.Hash.hash
    bloom_filter_jyy_0098_go.Std.Fnv.sum64a bloom_filter_jyy_0098_go.Std.Fnv.sum64
word-IsDistinct = (refl, (refl, tt))

with_word : (g : CountingFilter) × (add wide word ≡ ok g)
unfolding add bloom_filter_jyy_0098_go.Hash.hash bloom_filter_jyy_0098_go.Std.Fnv.sum64a
    bloom_filter_jyy_0098_go.Std.Fnv.sum64 bloom_filter_jyy_0098_go.Base.has_bit
with_word = (_, refl)

remove-add_example :
    (h : CountingFilter) × (remove with_word.0 word ≡ ok h)
    × IsCounting h
    × (h.count ≡ 5)
    × ((q : ℕ) → q < 97 → get_counter h q ≡ get_counter wide q)
remove-add_example =
    remove-add wide with_word.0 word wide-IsCounting word-IsDistinct (omega arith) with_word.1

counters-merge_example :
    (h : CountingFilter) × (merge five (some five) ≡ ok h)
    × IsCounting h
    × ((q : ℕ) → q < 5 → get_counter h q ≡ min 7 (get_counter five q + get_counter five q))
counters-merge_example = counters-merge five five five-IsCounting refl refl refl

-- One counter of 2 bits at 2, and two hash functions that both take it.
abbrev twice : CountingFilter
twice = record { m = 1; k = 2; counter_bits = 2; max_count = 3; bytes = 2 ∷ []; count = 1 }

-- `Add` succeeds, the counter goes from 2 over 3 to 0, and the item is gone.
overflow_lost :
    (g : CountingFilter) × (add twice word ≡ ok g) × (get_counter g 0 ≡ 0) × (test g word ≡ false)
unfolding add test get_counter bloom_filter_jyy_0098_go.Hash.hash
    bloom_filter_jyy_0098_go.Std.Fnv.sum64a bloom_filter_jyy_0098_go.Std.Fnv.sum64
    bloom_filter_jyy_0098_go.Base.has_bit bloom_filter_jyy_0098_go.Base.bit_clear
overflow_lost = (record twice { bytes = 0 ∷ []; count = 2 }, refl, refl, refl)

abbrev all_free : Locks
all_free = record { mutex = λ i. record { holder = nobody; readers = 0 }; phase = called }

abbrev merging : Locks
merging = record {
  mutex = update all_free.mutex 4 (take_write (all_free.mutex 4) this_merge);
  phase = write_locked;
}

-- The call has the write lock.
begun : Reach 4 4 all_free merging
begun = later here (merge_lock refl refl refl)

merge_self_example : merging.phase ≢ returned
merge_self_example = merge_self 4 all_free merging refl begun

abbrev blank : CountingFilter
blank = record wide { bytes = replicate 97 0; count = 0 }

blank-IsCounting : IsCounting blank
unfolding max_of data_len
blank-IsCounting = record {
  m_pos = omega arith;
  k_pos = omega arith;
  counter_pos = omega arith;
  counter_few = omega arith;
  no_wrap = omega arith;
  max_is = refl;
  sized = refl;
  all_bytes = omega arith;
}

blank_table : agree_below (get_counter blank) (λ q. 0) 97 ≡ true
unfolding agree_below get_counter bloom_filter_jyy_0098_go.Base.has_bit
blank_table = refl

blank-IsTally : IsTally (positions blank) blank []
unfolding tally
blank-IsTally = record {
  valid = blank-IsCounting;
  same_positions = λ item. refl;
  count = refl;
  counters = λ q hq. agree_below-eq (get_counter blank) (λ q. 0) 97 hq blank_table;
  bounded = λ q hq. omega (arith, agree_below-eq (get_counter blank) (λ q. 0) 97 hq blank_table);
}

blank_with_word : (g : CountingFilter) × (add blank word ≡ ok g)
unfolding add bloom_filter_jyy_0098_go.Hash.hash bloom_filter_jyy_0098_go.Std.Fnv.sum64a
    bloom_filter_jyy_0098_go.Std.Fnv.sum64 bloom_filter_jyy_0098_go.Base.has_bit
blank_with_word = (_, refl)

blank-IsDistinct : IsDistinct (positions blank word)
blank-IsDistinct = unfold positions in word-IsDistinct

abbrev before_run : Session
before_run = record { filter = blank; items = []; asked = []; underflows = 0 }

abbrev after_run : Session
after_run = record {
  filter = blank_with_word.0;
  items = word ∷ [];
  asked = word ∷ [];
  underflows = 0;
}

one_add : Runs.Reach before_run after_run
one_add = Runs.later Runs.here (add_returned word blank_with_word.1)

Reach-IsTally_example :
    IsTally (positions blank) blank_with_word.0 (word ∷ [])
    × (after_run.underflows ≡ before_run.underflows)
    × All (λ item. test blank_with_word.0 item ≡ true) (word ∷ [])
Reach-IsTally_example =
    Reach-IsTally (positions blank) blank-IsTally tt (blank-IsDistinct, tt) one_add
