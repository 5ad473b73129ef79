-- ===== src/Store/Cut.antt =====
-- `Open` on a store file that was cut off at any byte.
use bloom_filter_jyy_0098_go.Base.{
  take_within, take_beyond, take_nil, ℕ, ◌-◌, ◌<◌, ◌≤◌, ◌≡◌, refl, ap, ◌∙◌, List, [], ◌∷◌, ◌++◌,
  length, take, arith, All, append_assoc, none, ok, err, ltb, leb, if◌then◌else◌, length-take,
}
use bloom_filter_jyy_0098_go.Store.{Store, open_file, parse_record, header, corrupt_header}
use bloom_filter_jyy_0098_go.Store.Torn.{parse-torn}
use bloom_filter_jyy_0098_go.Store.Log.{Entry, encode_entry, encode_log, IsEntry, entry-IsRecord}
use bloom_filter_jyy_0098_go.Store.Recovery.{store_of, open_file-log, length-header}
use bloom_filter_jyy_0098_go.Store.Session.{IsDurable}

-- The entries of a log whose records lie within its first n bytes.
unfoldable pub surviving : ℕ → List Entry → List Entry
surviving n [] = []
surviving n (e ∷ es) =
    let rest = surviving (n - length (encode_entry e)) es in
    if leb (length (encode_entry e)) n then e ∷ rest else []

-- What the first n bytes of a log leave behind its surviving records.
leftover : ℕ → List Entry → List ℕ
leftover n [] = []
leftover n (e ∷ es) =
    let rest = leftover (n - length (encode_entry e)) es in
    if leb (length (encode_entry e)) n then rest else take n (encode_entry e)

-- A cut log is its surviving records and the leftover.
take-encode_log :
    (n : ℕ) (es : List Entry)
    → take n (encode_log es) ≡ encode_log (surviving n es) ++ leftover n es
unfolding surviving leftover
take-encode_log n [] = take_nil n
take-encode_log n (e ∷ es) = ground (
  arith,
  take_within n (encode_entry e) (encode_log es),
  take_beyond n (encode_entry e) (encode_log es),
  take-encode_log (n - length (encode_entry e)) es,
  append_assoc (encode_entry e) (encode_log (surviving (n - length (encode_entry e)) es))
      (leftover (n - length (encode_entry e)) es),
)

leftover-torn : (n : ℕ) (es : List Entry) → All IsEntry es → parse_record (leftover n es) ≡ none
unfolding leftover parse_record
leftover-torn n [] h = refl
leftover-torn n (e ∷ es) h =
    ground (
      arith,
      leftover-torn (n - length (encode_entry e)) es h.1,
      parse-torn (entry-IsRecord e h.0) n,
    )

surviving-IsEntry : (n : ℕ) (es : List Entry) → All IsEntry es → All IsEntry (surviving n es)
unfolding surviving
surviving-IsEntry n [] h = tt
surviving-IsEntry n (e ∷ es) h =
    ground (arith, surviving-IsEntry (n - length (encode_entry e)) es h.1)

module _ (s : Store) (d : IsDurable s) where
  short_file : (n : ℕ) → n < 8 → open_file (take n s.file) ≡ err corrupt_header
  unfolding open_file
  short_file n h = ground (arith, length-take n s.file)

  long_file :
      (n : ℕ) → 8 ≤ n → open_file (take n s.file) ≡ ok (store_of d.m (surviving (n - 8) d.log))
  unfolding store_of
  long_file n h =
      ap (λ (t : Store). open_file (take n t.file)) d.is
      ∙ ap open_file (
          take_beyond n (header d.m) (encode_log d.log) (omega (arith, length-header d.m))
          ∙ ap (λ k. header d.m ++ take (n - k) (encode_log d.log)) (length-header d.m)
          ∙ ap (λ t. header d.m ++ t) (take-encode_log (n - 8) d.log))
      ∙ open_file-log d.m (surviving (n - 8) d.log) (leftover (n - 8) d.log) d.pos d.small
          (surviving-IsEntry (n - 8) d.log d.written) (leftover-torn (n - 8) d.log d.written)

  -- A crash or a truncation may keep any number n of the bytes of a durable store's file. With less
  -- than a header, `Open` reports it; otherwise it gives the store of exactly the log entries whose
  -- records are whole within the first n bytes.
  pub open_file-cut :
      (n : ℕ)
      → open_file (take n s.file)
        ≡ (if ltb n 8 then err corrupt_header else ok (store_of d.m (surviving (n - 8) d.log)))
  open_file-cut n = ground (arith, short_file n, long_file n)
