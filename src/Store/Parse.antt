-- ===== src/Store/Parse.antt =====
-- `parseRecord` on bytes of any kind.
use bloom_filter_jyy_0098_go.Base.{
  ℕ, ◌-◌, ◌<◌, ◌≤◌, ◌≡◌, List, length, take, drop, arith, some, none, All, IsByte, length-take,
  get_or-take, slice-take, take-take_le, All-take, All-drop,
}
use bloom_filter_jyy_0098_go.Store.{parse_record, Parsed}

-- A parsed record has its nine bytes of frame at least, and lies within the input.
pub parse_bounds :
    (b : List ℕ) {r : Parsed} → parse_record b ≡ some r → (9 ≤ r.size) × (r.size ≤ length b)
unfolding parse_record
parse_bounds b e = ground arith

pub parse-IsByte :
    (b : List ℕ) {r : Parsed} → All IsByte b → parse_record b ≡ some r → All IsByte r.payload
unfolding parse_record
parse-IsByte b {r} h e =
    ground (arith, All-take IsByte (r.size - 9) (drop 5 b) (All-drop IsByte 5 b h))

-- A record is parsed from its own bytes only.
pub parse-take :
    (n : ℕ) (b : List ℕ) {r : Parsed}
    → parse_record b ≡ some r
    → r.size ≤ n
    → parse_record (take n b) ≡ some r
unfolding parse_record
parse-take n b {r} e h = ground (
  arith,
  parse_bounds b e,
  length-take n b,
  get_or-take n 0 b 0,
  slice-take n 1 5 b,
  slice-take n 5 (r.size - 4) b,
  slice-take n (r.size - 4) r.size b,
  take-take_le (r.size - 4) n b,
)

pub parse_short : (b : List ℕ) → length b < 5 → parse_record b ≡ none
unfolding parse_record
parse_short b h = ground arith
