-- ===== src/Filter/Ops/Single.antt =====
-- `SetBit`, `ClearBit` and `GetBit` of ops.go on valid filters.
use bloom_filter_jyy_0098_go.Base.{
  ℕ, ◌/◌, ◌%◌, ◌^◌, ◌<◌, ◌≡◌, refl, length, get_or, set, length-set, get_or-set_self, get_or-set_ne,
  arith, ok, not, ◌&&◌, ◌||◌, ◌==◌, ltb, bit_clear, has_bit-bit_clear, has_bit-pow, if◌then◌else◌,
  All-set, All-get_or, IsByte, bit_clear-lt, ◌∙◌,
}
use native.Mathlib.Decide.{ℕ_discrete, dec_lt}
use bloom_filter_jyy_0098_go.Filter.{BloomFilter, set_idx, get_idx}
use bloom_filter_jyy_0098_go.Filter.Valid.{IsValid, index_in_bits, set_idx-IsValid}
use bloom_filter_jyy_0098_go.Filter.View.{get_idx-set_idx, m-set_idx}
use bloom_filter_jyy_0098_go.Filter.Ops.{set_bit, clear_bit, get_bit}

-- Below m, `GetBit` reads the position that `Add` and `Test` use; from m on it is false.
pub get_bit-eq-get_idx :
    (f : BloomFilter) (pos : ℕ) → IsValid f → get_bit f pos ≡ ok (ltb pos f.m && get_idx f pos)
unfolding get_bit get_idx
get_bit-eq-get_idx f pos v = ground (arith, index_in_bits f pos v)

-- `SetBit` is the write that `Add` makes, guarded by the position.
set_bit-eq-set_idx :
    (f : BloomFilter) (pos : ℕ)
    → IsValid f
    → set_bit f pos ≡ ok (if ltb pos f.m then set_idx f pos else f)
unfolding set_bit set_idx
set_bit-eq-set_idx f pos v = ground (arith, index_in_bits f pos v)

-- `SetBit` on a valid filter does not panic; afterwards `GetBit` reads true at the position, if that
-- is below m, and at every other position what it read before.
pub get_bit-set_bit :
    (f : BloomFilter) (pos j : ℕ)
    → IsValid f
    → (h : BloomFilter) × (set_bit f pos ≡ ok h)
      × (get_bit h j ≡ ok ((ltb pos f.m && (pos == j)) || (ltb j f.m && get_idx f j)))
get_bit-set_bit f pos j v = elim (dec_lt pos f.m) [
  | yes p ↦ (
    set_idx f pos,
    ground (arith, set_bit-eq-set_idx f pos v),
    ground (
      arith,
      get_bit-eq-get_idx (set_idx f pos) j (set_idx-IsValid f pos v),
      m-set_idx f pos,
      get_idx-set_idx f pos j (index_in_bits f pos v p),
    ),
  )
  | no p ↦ (f, ground (arith, set_bit-eq-set_idx f pos v), ground (arith, get_bit-eq-get_idx f j v))
]

-- The byte that `ClearBit` writes.
abbrev cleared : BloomFilter → ℕ → ℕ
cleared f pos = bit_clear (get_or f.bits (pos / 8) 0) (2 ^ (pos % 8))

-- `ClearBit` without its guards.
clear_idx : BloomFilter → ℕ → BloomFilter
clear_idx f pos = record f { bits = set f.bits (pos / 8) (cleared f pos) }

clear_idx-IsValid : (f : BloomFilter) (pos : ℕ) → IsValid f → IsValid (clear_idx f pos)
unfolding clear_idx
clear_idx-IsValid f pos v = record {
  m_pos = v.m_pos;
  m_fits = v.m_fits;
  k_pos = v.k_pos;
  k_fits = v.k_fits;
  sized = length-set f.bits (pos / 8) (cleared f pos) ∙ v.sized;
  bytes = All-set IsByte f.bits (pos / 8) (cleared f pos) v.bytes (
      bit_clear-lt 8 (get_or f.bits (pos / 8) 0) (2 ^ (pos % 8))
        (All-get_or IsByte f.bits (pos / 8) 0 v.bytes (omega arith)));
}

get_idx-clear_idx :
    (f : BloomFilter) (i j : ℕ)
    → i / 8 < length f.bits
    → get_idx (clear_idx f i) j ≡ (get_idx f j && not (i == j))
unfolding get_idx clear_idx
get_idx-clear_idx f i j h = elim (ℕ_discrete (i / 8) (j / 8)) [
  | yes e ↦ ground (
    arith,
    length-set f.bits (i / 8) (cleared f i),
    get_or-set_self f.bits (i / 8) (cleared f i) 0,
    has_bit-bit_clear (get_or f.bits (i / 8) 0) (2 ^ (i % 8)) (j % 8),
    has_bit-pow (i % 8) (j % 8),
  )
  | no ne ↦ ground (
    arith,
    length-set f.bits (i / 8) (cleared f i),
    get_or-set_ne f.bits (i / 8) (j / 8) (cleared f i) 0 ne,
  )
]

clear_bit-eq-clear_idx :
    (f : BloomFilter) (pos : ℕ)
    → IsValid f
    → clear_bit f pos ≡ ok (if ltb pos f.m then clear_idx f pos else f)
unfolding clear_bit clear_idx
clear_bit-eq-clear_idx f pos v = ground (arith, index_in_bits f pos v)

m-clear_idx : (f : BloomFilter) (pos : ℕ) → (clear_idx f pos).m ≡ f.m
unfolding clear_idx
m-clear_idx f pos = refl

-- `ClearBit` on a valid filter does not panic; afterwards `GetBit` reads false at the position, and
-- at every other position what it read before.
pub get_bit-clear_bit :
    (f : BloomFilter) (pos j : ℕ)
    → IsValid f
    → (h : BloomFilter) × (clear_bit f pos ≡ ok h)
      × (get_bit h j ≡ ok (ltb j f.m && get_idx f j && not (pos == j)))
get_bit-clear_bit f pos j v = elim (dec_lt pos f.m) [
  | yes p ↦ (
    clear_idx f pos,
    ground (arith, clear_bit-eq-clear_idx f pos v),
    ground (
      arith,
      get_bit-eq-get_idx (clear_idx f pos) j (clear_idx-IsValid f pos v),
      m-clear_idx f pos,
      get_idx-clear_idx f pos j (index_in_bits f pos v p),
    ),
  )
  | no p ↦
      (f, ground (arith, clear_bit-eq-clear_idx f pos v), ground (arith, get_bit-eq-get_idx f j v))
]
