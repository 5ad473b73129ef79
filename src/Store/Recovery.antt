-- ===== src/Store/Recovery.antt =====
-- `Open` on a file whose records were written by the store, with anything unreadable behind them.
use bloom_filter_jyy_0098_go.Base.{
  ℕ, ◌+◌, ◌^◌, ◌<◌, ◌≡◌, refl, ap, sym, ◌∙◌, Option, some, none, List, [], ◌∷◌, ◌++◌, length, slice,
  arith, ◌⊎◌, inl, inr, length-append, true, All, take, append_assoc, drop, ◌≤◌, take-append,
  drop-add, drop-append, ok, All-append_right, subst, ap₂,
}
use bloom_filter_jyy_0098_go.Std.BigEndian.{uint32}
use bloom_filter_jyy_0098_go.Filter.{BloomFilter}
use bloom_filter_jyy_0098_go.Store.{
  Store, header, start, file_magic, header_size, opened, parse_record, replay, open_file,
}
use bloom_filter_jyy_0098_go.Store.Log.{
  Entry, added, snapshot, encode_entry, encode_log, apply_all, apply_all-append, meaning, fresh,
  IsEntry, default_filter-eq-fresh, encode_log-append, length-encode_log,
}
use bloom_filter_jyy_0098_go.Store.Scan.{
  last_of, state, replay-eq-apply_all, last_checkpoint-eq-last_of,
}

-- Where the last checkpoint of a log stands: there is none, or the log splits in front of it, and
-- what comes before the split does not matter to what comes after.
record Split (m : ℕ) (es : List Entry) (p : ℕ) (last : Option ℕ) : Type 0 where
  before : List Entry
  after : List Entry
  whole : es ≡ before ++ after
  at : last_of es p last ≡ some (p + length (encode_log before))
  independent : (bf bf' : Option BloomFilter) → apply_all m bf after ≡ apply_all m bf' after

Split-log :
    (m : ℕ) (es : List Entry) (p : ℕ) (last : Option ℕ)
    → (last_of es p last ≡ last) ⊎ Split m es p last
Split-log m [] p last = inl refl
Split-log m (added x ∷ es) p last =
    elim (Split-log m es (p + length (encode_entry (added x))) last) [
      | inl e ↦ inl e
      | inr s ↦ inr (record {
        before = added x ∷ s.before;
        after = s.after;
        whole = ap (◌∷◌ (added x)) s.whole;
        at =
            s.at
            ∙ ap some (omega (arith, length-append (encode_entry (added x)) (encode_log s.before)));
        independent = s.independent;
      })
    ]
Split-log m (snapshot f ∷ es) p last =
    elim (Split-log m es (p + length (encode_entry (snapshot f))) (some p)) [
      | inl e ↦ inr (record {
        before = [];
        after = snapshot f ∷ es;
        whole = refl;
        at = e ∙ ap some (omega arith);
        independent = λ bf bf'. refl;
      })
      | inr s ↦ inr (record {
        before = snapshot f ∷ s.before;
        after = s.after;
        whole = ap (◌∷◌ (snapshot f)) s.whole;
        at =
            s.at
            ∙ ap some
                (omega (arith, length-append (encode_entry (snapshot f)) (encode_log s.before)));
        independent = s.independent;
      })
    ]

-- The second pass starts where the rest of the log gives the filter of the whole log.
record Resume (m : ℕ) (es : List Entry) : Type 0 where
  before : List Entry
  after : List Entry
  whole : es ≡ before ++ after
  at : start (last_of es header_size none) ≡ 8 + length (encode_log before)
  same : apply_all m none after ≡ apply_all m none es

resume : (m : ℕ) (es : List Entry) → Resume m es
unfolding start
resume m es = elim (Split-log m es 8 none) [
  | inl e ↦ record {
    before = [];
    after = es;
    whole = refl;
    at = ap start e ∙ omega arith;
    same = refl;
  }
  | inr s ↦ record {
    before = s.before;
    after = s.after;
    whole = s.whole;
    at = ap start s.at;
    same =
        s.independent none (apply_all m none s.before)
        ∙ sym (apply_all-append m none s.before s.after)
        ∙ ap (apply_all m none) (sym s.whole);
  }
]

pub length-header : (m : ℕ) → length (header m) ≡ 8
unfolding header
length-header m = refl

pub header_reads :
    (m : ℕ) (rest : List ℕ)
    → m < 2 ^ 32
    → (uint32 (slice (header m ++ rest) 0 4) ≡ file_magic)
      × (uint32 (slice (header m ++ rest) 4 8) ≡ m)
unfolding header uint32
header_reads m rest h = (refl, omega (arith, h))

-- The store that a log of entries stands for.
unfoldable pub store_of : ℕ → List Entry → Store
store_of m es = record {
  file = header m ++ encode_log es;
  is_open = true;
  filter = some (meaning m es);
  k = (meaning m es).k;
}

-- The filter that a replay ends with, or the default if it found no record.
abbrev pub settled : ℕ → Option BloomFilter → BloomFilter
settled m bf = elim bf [ some f ↦ f | none ↦ fresh m ]

opened-eq :
    (bytes file : List ℕ) (m pos : ℕ) (bf : Option BloomFilter)
    → 0 < m
    → take pos bytes ≡ file
    → opened bytes m (state bf pos)
      ≡ record { file = file; is_open = true; filter = some (settled m bf); k = (settled m bf).k }
unfolding opened fresh
opened-eq bytes file m pos none h e = ground (arith, default_filter-eq-fresh m h)
opened-eq bytes file m pos (some f) h e = ground arith

module _ (m : ℕ) (es : List Entry) (tail : List ℕ) (pos : 0 < m) (fits : m < 2 ^ 32)
    (written : All IsEntry es) (torn : parse_record tail ≡ none) where
  abbrev contents : List ℕ
  contents = header m ++ (encode_log es ++ tail)

  enough : length es ≤ length contents
  enough = omega (
    arith,
    length-append (header m) (encode_log es ++ tail),
    length-append (encode_log es) tail,
    length-encode_log es,
  )

  after_header : drop 8 contents ≡ encode_log es ++ tail
  after_header = drop-append 8 (header m) (encode_log es ++ tail) (sym (length-header m))

  -- What is left of the file from where the second pass starts.
  after_start :
      (r : Resume m es)
      → drop (8 + length (encode_log r.before)) contents ≡ encode_log r.after ++ tail
  after_start r =
      drop-add 8 (length (encode_log r.before)) contents
      ∙ ap (drop (length (encode_log r.before))) (
          after_header
          ∙ ap (λ log. encode_log log ++ tail) r.whole
          ∙ ap (λ t. t ++ tail) (encode_log-append r.before r.after)
          ∙ append_assoc (encode_log r.before) (encode_log r.after) tail)
      ∙ drop-append (length (encode_log r.before)) (encode_log r.before)
          (encode_log r.after ++ tail) refl

  -- Where the log ends.
  log_end :
      (r : Resume m es)
      → 8 + length (encode_log r.before) + length (encode_log r.after) ≡ 8 + length (encode_log es)
  log_end r = omega (
    arith,
    length-append (encode_log r.before) (encode_log r.after),
    ap length (ap encode_log r.whole ∙ encode_log-append r.before r.after),
  )

  second_pass :
      (r : Resume m es)
      → replay
          (length contents)
          contents
          m
          (record { bf = none; k = 0; pos = start (last_of es header_size none) })
        ≡ some (state (apply_all m none es) (8 + length (encode_log es)))
  second_pass r =
      ap (λ p. replay (length contents) contents m (state none p)) r.at
      ∙ replay-eq-apply_all contents tail torn (length contents) m r.after none
          (8 + length (encode_log r.before)) pos
          (All-append_right IsEntry r.before r.after (subst (All IsEntry) r.whole written))
          (omega (arith, enough, length-append r.before r.after, ap length r.whole)) (after_start r)
      ∙ ap₂ (λ bf p. some (state bf p)) r.same (log_end r)

  cut_file : take (8 + length (encode_log es)) contents ≡ header m ++ encode_log es
  cut_file =
      ap (take (8 + length (encode_log es))) (sym (append_assoc (header m) (encode_log es) tail))
      ∙ take-append (8 + length (encode_log es)) (header m ++ encode_log es) tail
          (omega (arith, length-append (header m) (encode_log es), length-header m))

  -- `Open` on a file with a header of m, 0 < m < 2^32, the records of a log of entries that the
  -- format can hold, and then bytes that do not begin with a record: it succeeds, its filter is
  -- that of the whole log applied in order, though it replays from the last checkpoint only, and it
  -- truncates the file to the log.
  pub open_file-log : open_file contents ≡ ok (store_of m es)
  unfolding open_file store_of meaning
  open_file-log =
      let reads = header_reads m (encode_log es ++ tail) fits in
      ground (
        arith,
        reads,
        length-append (header m) (encode_log es ++ tail),
        length-header m,
        last_checkpoint-eq-last_of contents tail torn (length contents) es 8 none written enough
            after_header,
        second_pass (resume m es),
        opened-eq contents (header m ++ encode_log es) m (8 + length (encode_log es))
            (apply_all m none es) pos cut_file,
      )
