-- ===== src/Filter/Ops/Algebra.antt =====
-- What `Union`, `Intersection`, `Difference` and `XOR` do, as one lemma about `combine`: on valid
-- filters with the same parameters it succeeds, and acts position by position.
use bloom_filter_jyy_0098_go.Base.{
  ℕ, ◌/◌, ◌%◌, ◌<◌, ◌≡◌, refl, sym, ◌∙◌, ap, ap₂, length, get_or, arith, ok, Bool, false, not, ◌&&◌,
  ◌||◌, some, has_bit, bit_and, bit_or, bit_xor, bit_clear, has_bit-bit_or, has_bit-bit_and,
  has_bit-bit_xor, has_bit-bit_clear, bit_or-lt, bit_and-lt, bit_xor-lt, bit_clear-lt,
}
use mathlib.Core.Bool.{xor}
use native.Mathlib.Decide.{dec_lt}
use bloom_filter_jyy_0098_go.Filter.{BloomFilter, FilterError, get_idx}
use bloom_filter_jyy_0098_go.Filter.Valid.{IsValid}
use bloom_filter_jyy_0098_go.Filter.Ops.{
  mismatch, combine, difference, union, xor_with, intersection,
}
use bloom_filter_jyy_0098_go.Filter.Ops.Bytes.{
  zip_with, zip_bytes-eq-zip_with, length-zip_with, get_or-zip_with, zip_with-IsByte,
  get_idx-eq-has_bit, get_idx_out,
}

-- The two filters may be combined.
pub record Matches (f g : BloomFilter) : Type 0 where
  pub left : IsValid f
  pub right : IsValid g
  pub same_m : f.m ≡ g.m
  pub same_k : f.k ≡ g.k

-- `h` has the parameters of `f`, and at each position what `op` makes of the positions of both.
pub record IsCombined (op : Bool → Bool → Bool) (f g h : BloomFilter) : Type 0 where
  pub valid : IsValid h
  pub m_kept : h.m ≡ f.m
  pub k_kept : h.k ≡ f.k
  pub at : (j : ℕ) → get_idx h j ≡ op (get_idx f j) (get_idx g j)

-- An operation on bytes that acts on each bit by an operation on Booleans.
pub record Bitwise (op : ℕ → ℕ → ℕ) (on : Bool → Bool → Bool) : Type 0 where
  pub digit : (a b i : ℕ) → has_bit (op a b) i ≡ on (has_bit a i) (has_bit b i)
  pub byte : (a b : ℕ) → a < 256 → b < 256 → op a b < 256
  pub blank : on false false ≡ false

pub bit_or-Bitwise : Bitwise bit_or (λ a b. a || b)
bit_or-Bitwise = record { digit = has_bit-bit_or; byte = bit_or-lt 8; blank = refl }

pub bit_and-Bitwise : Bitwise bit_and (λ a b. a && b)
bit_and-Bitwise = record {
  digit = has_bit-bit_and;
  byte = λ a b p q. bit_and-lt 256 a b p;
  blank = refl;
}

pub bit_xor-Bitwise : Bitwise bit_xor xor
bit_xor-Bitwise = record {
  digit = has_bit-bit_xor;
  byte = bit_xor-lt 8;
  blank = unfold xor in refl;
}

pub bit_clear-Bitwise : Bitwise bit_clear (λ a b. a && not b)
bit_clear-Bitwise = record {
  digit = has_bit-bit_clear;
  byte = λ a b p q. bit_clear-lt 8 a b p;
  blank = refl;
}

pub Matches-sized : {f g : BloomFilter} → Matches f g → length f.bits ≡ length g.bits
Matches-sized p = omega (arith, p.left.sized, p.right.sized, p.same_m)

pub mismatch-Matches : (f g : BloomFilter) → Matches f g → mismatch f g ≡ false
unfolding mismatch
mismatch-Matches f g p = ground (arith, p.same_m, p.same_k)

-- The result of combining two filters byte by byte.
unfoldable pub zipped : (ℕ → ℕ → ℕ) → BloomFilter → BloomFilter → BloomFilter
zipped op f g = record f { bits = zip_with op f.bits g.bits }

pub combine-eq-zipped :
    (op : ℕ → ℕ → ℕ) (f g : BloomFilter) → Matches f g → combine op f (some g) ≡ ok (zipped op f g)
unfolding combine zipped
combine-eq-zipped op f g p = ground (
  arith,
  mismatch-Matches f g p,
  zip_bytes-eq-zip_with {E = FilterError} op f.bits g.bits (Matches-sized p),
)

pub union-eq-zipped : (f g : BloomFilter) → Matches f g → union f (some g) ≡ ok (zipped bit_or f g)
unfolding union
union-eq-zipped = combine-eq-zipped bit_or

pub intersection-eq-zipped :
    (f g : BloomFilter) → Matches f g → intersection f (some g) ≡ ok (zipped bit_and f g)
unfolding intersection
intersection-eq-zipped = combine-eq-zipped bit_and

pub difference-eq-zipped :
    (f g : BloomFilter) → Matches f g → difference f (some g) ≡ ok (zipped bit_clear f g)
unfolding difference
difference-eq-zipped = combine-eq-zipped bit_clear

pub xor_with-eq-zipped :
    (f g : BloomFilter) → Matches f g → xor_with f (some g) ≡ ok (zipped bit_xor f g)
unfolding xor_with
xor_with-eq-zipped = combine-eq-zipped bit_xor

module _ {op : ℕ → ℕ → ℕ} {on : Bool → Bool → Bool} (bw : Bitwise op on) (f g : BloomFilter)
    (p : Matches f g) where
  zipped_at : (j : ℕ) → get_idx (zipped op f g) j ≡ on (get_idx f j) (get_idx g j)
  unfolding zipped
  zipped_at j = elim (dec_lt (j / 8) (length f.bits)) [
    | yes h ↦
        get_idx-eq-has_bit (zipped op f g) j
        ∙ ap (λ b. has_bit b (j % 8)) (get_or-zip_with op f.bits g.bits (j / 8) (Matches-sized p) h)
        ∙ bw.digit (get_or f.bits (j / 8) 0) (get_or g.bits (j / 8) 0) (j % 8)
        ∙ sym (ap₂ on (get_idx-eq-has_bit f j) (get_idx-eq-has_bit g j))
    | no h ↦
        get_idx_out (zipped op f g) j
          (omega (arith, length-zip_with op f.bits g.bits (Matches-sized p)))
        ∙ sym bw.blank
        ∙ sym (
            ap₂ on (get_idx_out f j (omega arith))
              (get_idx_out g j (omega (arith, Matches-sized p))))
  ]

  pub zipped-IsCombined : IsCombined on f g (zipped op f g)
  zipped-IsCombined = record {
    valid =
        unfold zipped in
        record {
          m_pos = p.left.m_pos;
          m_fits = p.left.m_fits;
          k_pos = p.left.k_pos;
          k_fits = p.left.k_fits;
          sized = length-zip_with op f.bits g.bits (Matches-sized p) ∙ p.left.sized;
          bytes = zip_with-IsByte op f.bits g.bits bw.byte p.left.bytes p.right.bytes;
        };
    m_kept = unfold zipped in refl;
    k_kept = unfold zipped in refl;
    at = zipped_at;
  }
