-- ===== src/Filter/Valid.antt =====
-- Well-formed filters: what `New` establishes and `Add` keeps.
use bloom_filter_jyy_0098_go.Base.{
  ℕ, zero, suc, ◌+◌, ◌/◌, ◌%◌, ◌^◌, ◌<◌, ◌≡◌, List, [], ◌∷◌, length, arith, All, IsByte, ok,
  All-replicate, All-set, All-get_or, length-replicate, length-set, bit_or-lt, two_pow-lt,
  Bool-cases, inl, inr, leb, replicate, get_or, bit_or, sym, u64,
}
use mathlib.Core.Path.{subst}
use bloom_filter_jyy_0098_go.Hash.{hash}
use bloom_filter_jyy_0098_go.Filter.{
  BloomFilter, new, bytes_for, set_idx, add_loop, add, add_all, new_from_parts,
}

-- A filter whose parameters are positive 64-bit numbers, whose size computation does not wrap,
-- and whose array has exactly the bytes that m bits take.
pub record IsValid (f : BloomFilter) : Type 0 where
  pub m_pos : 0 < f.m
  pub m_fits : f.m + 7 < 2 ^ 64
  pub k_pos : 0 < f.k
  pub k_fits : f.k < 2 ^ 64
  pub sized : length f.bits ≡ (f.m + 7) / 8
  pub bytes : All IsByte f.bits

pub index_in_bits : (f : BloomFilter) (i : ℕ) → IsValid f → i < f.m → i / 8 < length f.bits
index_in_bits f i v h = omega (arith, v.sized)

-- What a successful `New` built.
pub new_ok :
    (m k : ℕ) {f : BloomFilter}
    → new m k ≡ ok f
    → (0 < m) × (0 < k) × (f ≡ record { m = m; k = k; bits = replicate (bytes_for m) 0 })
unfolding new
new_ok zero k e = ground arith
new_ok (suc m) zero e = ground arith
new_ok (suc m) (suc k) e = ground arith

pub new-IsValid :
    (m k : ℕ) {f : BloomFilter} → m + 7 < 2 ^ 64 → k < 2 ^ 64 → new m k ≡ ok f → IsValid f
unfolding bytes_for
new-IsValid m k hm hk e =
    let made = new_ok m k e in
    subst IsValid (sym made.2) (record {
      m_pos = made.0;
      m_fits = hm;
      k_pos = made.1;
      k_fits = hk;
      sized = omega (arith, length-replicate {A = ℕ} (u64 (m + 7) / 8) 0);
      bytes = All-replicate IsByte (u64 (m + 7) / 8) 0 (omega arith);
    })

pub set_idx-IsValid : (f : BloomFilter) (i : ℕ) → IsValid f → IsValid (set_idx f i)
unfolding set_idx
set_idx-IsValid f i v = elim (Bool-cases (leb (length f.bits) (i / 8))) [
  | inl e ↦ rw e v
  | inr e ↦ rw e (record {
    m_pos = v.m_pos;
    m_fits = v.m_fits;
    k_pos = v.k_pos;
    k_fits = v.k_fits;
    sized = rw length-set v.sized;
    bytes = All-set IsByte f.bits (i / 8) (bit_or (get_or f.bits (i / 8) 0) (2 ^ (i % 8))) v.bytes (
        bit_or-lt 8 (get_or f.bits (i / 8) 0) (2 ^ (i % 8))
          (All-get_or IsByte f.bits (i / 8) 0 v.bytes (omega arith))
          (two_pow-lt (i % 8) (omega arith)));
  })
]

add_loop-IsValid :
    (item : List ℕ) (left i : ℕ) (f : BloomFilter) → IsValid f → IsValid (add_loop item left i f)
unfolding add_loop
add_loop-IsValid item zero i f v = v
add_loop-IsValid item (suc left) i f v =
    add_loop-IsValid item left (i + 1) (set_idx f (hash item i f.m))
      (set_idx-IsValid f (hash item i f.m) v)

pub add-IsValid : (f : BloomFilter) (item : List ℕ) → IsValid f → IsValid (add f item)
add-IsValid f item v = unfold add in add_loop-IsValid item f.k 0 f v

pub add_all-IsValid :
    (f : BloomFilter) (items : List (List ℕ)) → IsValid f → IsValid (add_all f items)
unfolding add_all
add_all-IsValid f [] v = v
add_all-IsValid f (x ∷ xs) v = add_all-IsValid (add f x) xs (add-IsValid f x v)

-- What a successful `NewFromParts` built.
pub new_from_parts_ok :
    (m k : ℕ) (bits : List ℕ) {f : BloomFilter}
    → new_from_parts m k bits ≡ ok f
    → (0 < m) × (0 < k) × (length bits ≡ bytes_for m) × (f ≡ record { m = m; k = k; bits = bits })
unfolding new_from_parts
new_from_parts_ok zero k bits e = ground arith
new_from_parts_ok (suc m) zero bits e = ground arith
new_from_parts_ok (suc m) (suc k) bits e = ground arith

pub new_from_parts-IsValid :
    (m k : ℕ) (bits : List ℕ) {f : BloomFilter}
    → m + 7 < 2 ^ 64
    → k < 2 ^ 64
    → All IsByte bits
    → new_from_parts m k bits ≡ ok f
    → IsValid f
unfolding bytes_for
new_from_parts-IsValid m k bits hm hk hb e =
    let made = new_from_parts_ok m k bits e in
    subst IsValid (sym made.3) (record {
      m_pos = made.0;
      m_fits = hm;
      k_pos = made.1;
      k_fits = hk;
      sized = omega (arith, made.2);
      bytes = hb;
    })
