-- ===== src/Wal/Cut.antt =====
-- `ReadAll` on a log that was cut off at any byte.
use bloom_filter_jyy_0098_go.Base.{
  ℕ, ◌-◌, ◌≡◌, refl, ap, ◌∙◌, List, [], ◌∷◌, ◌++◌, length, take, arith, All, append_assoc, none,
  leb, if◌then◌else◌, take_within, take_beyond, take_nil,
}
use bloom_filter_jyy_0098_go.Wal.{WalEntry, encode_entry, encode_all, decode_entry, read_all}
use bloom_filter_jyy_0098_go.Wal.Entries.{IsWalEntry, decode-torn, read_all-encode_all}

-- The entries that lie within the first n bytes.
unfoldable pub surviving : ℕ → List WalEntry → List WalEntry
surviving n [] = []
surviving n (e ∷ es) =
    let rest = surviving (n - length (encode_entry e)) es in
    if leb (length (encode_entry e)) n then e ∷ rest else []

-- What the first n bytes hold behind those.
leftover : ℕ → List WalEntry → List ℕ
leftover n [] = []
leftover n (e ∷ es) =
    let rest = leftover (n - length (encode_entry e)) es in
    if leb (length (encode_entry e)) n then rest else take n (encode_entry e)

take-encode_all :
    (n : ℕ) (es : List WalEntry)
    → take n (encode_all es) ≡ encode_all (surviving n es) ++ leftover n es
unfolding surviving leftover
take-encode_all n [] = take_nil n
take-encode_all n (e ∷ es) = ground (
  arith,
  take_within n (encode_entry e) (encode_all es),
  take_beyond n (encode_entry e) (encode_all es),
  take-encode_all (n - length (encode_entry e)) es,
  append_assoc (encode_entry e) (encode_all (surviving (n - length (encode_entry e)) es))
      (leftover (n - length (encode_entry e)) es),
)

leftover-torn :
    (n : ℕ) (es : List WalEntry) → All IsWalEntry es → decode_entry (leftover n es) ≡ none
unfolding leftover decode_entry
leftover-torn n [] h = refl
leftover-torn n (e ∷ es) h =
    ground (arith, leftover-torn (n - length (encode_entry e)) es h.1, decode-torn e h.0 n)

surviving-IsWalEntry :
    (n : ℕ) (es : List WalEntry) → All IsWalEntry es → All IsWalEntry (surviving n es)
unfolding surviving
surviving-IsWalEntry n [] h = tt
surviving-IsWalEntry n (e ∷ es) h =
    ground (arith, surviving-IsWalEntry (n - length (encode_entry e)) es h.1)

-- Of a log of entries that the format can hold, cut off after any number n of bytes, `ReadAll` gives
-- exactly the entries that lie whole within the first n bytes, in order.
pub read_all-cut :
    (n : ℕ) (es : List WalEntry)
    → All IsWalEntry es
    → read_all (take n (encode_all es)) ≡ surviving n es
read_all-cut n es h =
    ap read_all (take-encode_all n es)
    ∙ read_all-encode_all (surviving n es) (leftover n es) (surviving-IsWalEntry n es h)
        (leftover-torn n es h)
