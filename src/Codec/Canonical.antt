-- ===== src/Codec/Canonical.antt =====
-- The v2 decoder accepts no encoding but the one that `Marshal` writes.
use bloom_filter_jyy_0098_go.Base.{
  ℕ, ◌+◌, ◌-◌, ◌^◌, ◌<◌, ◌≤◌, ◌≡◌, sym, ap, ap₂, ◌∙◌, List, ◌∷◌, ◌++◌, length, take, drop, slice,
  get_or, arith, ok, some, All, IsByte, All-take, All-drop, length-drop, take-add, take_one,
  drop-add, u32,
}
use bloom_filter_jyy_0098_go.Std.BigEndian.{uint32, put_uint32, put_uint32-uint32, uint32-lt}
use bloom_filter_jyy_0098_go.Std.Crc32.{checksum_ieee}
use bloom_filter_jyy_0098_go.Filter.{BloomFilter, bytes_for}
use bloom_filter_jyy_0098_go.Filter.Valid.{new_from_parts_ok}
use bloom_filter_jyy_0098_go.Codec.{unmarshal, unmarshal_v2, marshal, payload_v2, magic_v2}
use bloom_filter_jyy_0098_go.Codec.Formats.{parts_v2}

-- The bytes from i to i + 4 are those of the number that is read there.
word_at :
    (b : List ℕ) (i : ℕ)
    → All IsByte b
    → i + 4 ≤ length b
    → put_uint32 (uint32 (take 4 (drop i b))) ≡ take 4 (drop i b)
word_at b i h e =
    put_uint32-uint32 (drop i b) (All-drop IsByte i b h) (omega (arith, length-drop i b))

word-lt : (b : List ℕ) (i : ℕ) → All IsByte b → uint32 (take 4 (drop i b)) < 2 ^ 32
word-lt b i h = uint32-lt (take 4 (drop i b)) (All-take IsByte 4 (drop i b) (All-drop IsByte i b h))

-- A prefix of a blob as the fields of the format.
fields :
    (b : List ℕ) (n : ℕ)
    → 5 ≤ length b
    → take (13 + n) b
      ≡ take 4 b ++ (get_or b 4 0 ∷ take 4 (drop 5 b) ++ (take 4 (drop 9 b) ++ take n (drop 13 b)))
fields b n h =
    let split : 13 + n ≡ 4 + (1 + (4 + (4 + n))) = omega arith in
    ap (λ t. take t b) split
    ∙ take-add 4 (1 + (4 + (4 + n))) b
    ∙ ap (λ t. take 4 b ++ t)
        (take-add 1 (4 + (4 + n)) (drop 4 b)
          ∙ ap₂ ◌++◌ (take_one 4 b 0 (omega arith)) (
              ap (take (4 + (4 + n))) (sym (drop-add 4 1 b))
              ∙ take-add 4 (4 + n) (drop 5 b)
              ∙ ap (λ t. take 4 (drop 5 b) ++ t)
                  (ap (take (4 + n)) (sym (drop-add 5 4 b))
                    ∙ take-add 4 n (drop 9 b)
                    ∙ ap (λ t. take 4 (drop 9 b) ++ take n t) (sym (drop-add 9 4 b)))))

-- What an accepted v2 blob consists of.
record Accepted (b : List ℕ) (f : BloomFilter) : Type 0 where
  pub magic : uint32 (take 4 b) ≡ magic_v2
  pub ver : get_or b 4 0 ≡ 2
  pub m_is : f.m ≡ uint32 (slice b 5 9)
  pub k_is : f.k ≡ uint32 (slice b 9 13)
  pub bits_are : f.bits ≡ slice b 13 (13 + bytes_for f.m)
  pub room : 13 + bytes_for f.m + 4 ≤ length b
  pub crc :
      uint32 (slice b (13 + bytes_for f.m) (13 + bytes_for f.m + 4))
      ≡ checksum_ieee (take (13 + bytes_for f.m) b)

checks :
    (b : List ℕ) {f : BloomFilter}
    → unmarshal_v2 b ≡ ok f
    → (get_or b 4 0 ≡ 2)
      × (13 + bytes_for (uint32 (slice b 5 9)) + 4 ≤ length b)
      × (uint32 (
            slice b
              (13 + bytes_for (uint32 (slice b 5 9)))
              (13 + bytes_for (uint32 (slice b 5 9)) + 4))
          ≡ checksum_ieee (take (13 + bytes_for (uint32 (slice b 5 9))) b))
unfolding unmarshal_v2
checks b e = (ground arith, ground arith, ground arith)

accepted :
    (b : List ℕ) (f : BloomFilter)
    → uint32 (take 4 b) ≡ magic_v2
    → unmarshal b ≡ ok f
    → Accepted b f
unfolding unmarshal
accepted b f magic e =
    let read : unmarshal_v2 b ≡ ok f = ground arith in
    let m = uint32 (slice b 5 9) in
    let made =
      new_from_parts_ok m (uint32 (slice b 9 13)) (slice b 13 (13 + bytes_for m))
        (parts_v2 b read) in
    let same : f.m ≡ m = ap (λ (g : BloomFilter). g.m) made.3 in
    let c = checks b read in
    record {
      magic = magic;
      ver = c.0;
      m_is = same;
      k_is = ap (λ (g : BloomFilter). g.k) made.3;
      bits_are =
          ap (λ (g : BloomFilter). g.bits) made.3
          ∙ ap (λ j. slice b 13 (13 + bytes_for j)) (sym same);
      room = rw same c.1;
      crc = rw same c.2;
    }

payload_v2-eq-take :
    (b : List ℕ) (f : BloomFilter)
    → All IsByte b
    → Accepted b f
    → payload_v2 f ≡ take (13 + bytes_for f.m) b
unfolding payload_v2
payload_v2-eq-take b f h a =
    let n = bytes_for f.m in
    let m_32 : u32 f.m ≡ uint32 (take 4 (drop 5 b)) = omega (arith, a.m_is, word-lt b 5 h) in
    let k_32 : u32 f.k ≡ uint32 (take 4 (drop 9 b)) = omega (arith, a.k_is, word-lt b 9 h) in
    let width : 13 + n - 13 ≡ n = omega arith in
    ap₂ ◌++◌ (ap put_uint32 (sym a.magic) ∙ word_at b 0 h (omega (arith, a.room))) (
      ap₂ ◌∷◌ (sym a.ver) (
        ap₂ ◌++◌ (ap put_uint32 m_32 ∙ word_at b 5 h (omega (arith, a.room))) (
          ap₂ ◌++◌ (ap put_uint32 k_32 ∙ word_at b 9 h (omega (arith, a.room)))
            (a.bits_are ∙ ap (λ j. take j (drop 13 b)) width))))
    ∙ sym (fields b n (omega (arith, a.room)))

-- A blob of bytes with the magic of v2 that `Unmarshal` accepts begins with exactly the bytes that
-- `Marshal` writes for the filter it returned.
pub marshal-unmarshal :
    (b : List ℕ) (f : BloomFilter)
    → All IsByte b
    → uint32 (take 4 b) ≡ magic_v2
    → unmarshal b ≡ ok f
    → marshal (some f) ≡ take (13 + bytes_for f.m + 4) b
unfolding marshal
marshal-unmarshal b f h magic e =
    let a = accepted b f magic e in
    let n = bytes_for f.m in
    let whole = payload_v2-eq-take b f h a in
    let width : 13 + n + 4 - (13 + n) ≡ 4 = omega arith in
    ap₂ ◌++◌ whole (
      ap put_uint32
        (ap checksum_ieee whole ∙ sym a.crc ∙ ap (λ j. uint32 (take j (drop (13 + n) b))) width)
      ∙ word_at b (13 + n) h a.room)
    ∙ sym (take-add (13 + n) 4 b)
