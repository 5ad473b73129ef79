-- ===== src/Filter/Ops/Bytes.antt =====
-- `zip_bytes` on slices of one length, and the extensionality of filters.
use bloom_filter_jyy_0098_go.Base.{
  ℕ, zero, suc, ◌+◌, ◌*◌, ◌/◌, ◌%◌, ◌<◌, ◌≡◌, refl, ap, List, [], ◌∷◌, length, get_or, get_or_ext,
  get_or_out, arith, All, IsByte, ok, has_bit, has_bit-zero, byte_ext, All-get_or, ◌∙◌, sym, ◌≤◌,
  false,
}
use bloom_filter_jyy_0098_go.Filter.{BloomFilter, get_idx}
use bloom_filter_jyy_0098_go.Filter.Valid.{IsValid}
use bloom_filter_jyy_0098_go.Filter.Ops.{zip_bytes}

unfoldable pub zip_with : (ℕ → ℕ → ℕ) → List ℕ → List ℕ → List ℕ
zip_with op [] ys = []
zip_with op (x ∷ xs) [] = []
zip_with op (x ∷ xs) (y ∷ ys) = op x y ∷ zip_with op xs ys

-- Slices of one length are combined with no panic.
pub zip_bytes-eq-zip_with :
    {E : Type 0} (op : ℕ → ℕ → ℕ) (xs ys : List ℕ)
    → length xs ≡ length ys
    → zip_bytes {E = E} op xs ys ≡ ok (zip_with op xs ys)
unfolding zip_bytes zip_with
zip_bytes-eq-zip_with op [] ys e = refl
zip_bytes-eq-zip_with op (x ∷ xs) [] e = absurd (omega arith)
zip_bytes-eq-zip_with {E} op (x ∷ xs) (y ∷ ys) e =
    ground (arith, zip_bytes-eq-zip_with {E = E} op xs ys (omega arith))

pub length-zip_with :
    (op : ℕ → ℕ → ℕ) (xs ys : List ℕ)
    → length xs ≡ length ys
    → length (zip_with op xs ys) ≡ length xs
unfolding zip_with
length-zip_with op [] ys e = refl
length-zip_with op (x ∷ xs) [] e = absurd (omega arith)
length-zip_with op (x ∷ xs) (y ∷ ys) e = ap suc (length-zip_with op xs ys (omega arith))

pub get_or-zip_with :
    (op : ℕ → ℕ → ℕ) (xs ys : List ℕ) (i : ℕ)
    → length xs ≡ length ys
    → i < length xs
    → get_or (zip_with op xs ys) i 0 ≡ op (get_or xs i 0) (get_or ys i 0)
unfolding zip_with
get_or-zip_with op [] ys i e h = absurd (omega arith)
get_or-zip_with op (x ∷ xs) [] i e h = absurd (omega arith)
get_or-zip_with op (x ∷ xs) (y ∷ ys) zero e h = refl
get_or-zip_with op (x ∷ xs) (y ∷ ys) (suc i) e h =
    get_or-zip_with op xs ys i (omega arith) (omega arith)

pub zip_with-IsByte :
    (op : ℕ → ℕ → ℕ) (xs ys : List ℕ)
    → ((a b : ℕ) → a < 256 → b < 256 → op a b < 256)
    → All IsByte xs
    → All IsByte ys
    → All IsByte (zip_with op xs ys)
unfolding zip_with
zip_with-IsByte op [] ys keep hx hy = tt
zip_with-IsByte op (x ∷ xs) [] keep hx hy = tt
zip_with-IsByte op (x ∷ xs) (y ∷ ys) keep hx hy =
    (keep x y hx.0 hy.0, zip_with-IsByte op xs ys keep hx.1 hy.1)

-- A position as a read of the array.
pub get_idx-eq-has_bit :
    (f : BloomFilter) (j : ℕ) → get_idx f j ≡ has_bit (get_or f.bits (j / 8) 0) (j % 8)
unfolding get_idx
get_idx-eq-has_bit f j = ground (arith, get_or_out f.bits (j / 8) 0, has_bit-zero (j % 8))

-- Past the array every position is off.
pub get_idx_out : (f : BloomFilter) (j : ℕ) → length f.bits ≤ j / 8 → get_idx f j ≡ false
unfolding get_idx
get_idx_out f j h = ground arith

-- Valid filters with the same parameters and the same positions on are equal.
pub filter_ext :
    (f g : BloomFilter)
    → IsValid f
    → IsValid g
    → f.m ≡ g.m
    → f.k ≡ g.k
    → ((j : ℕ) → get_idx f j ≡ get_idx g j)
    → f ≡ g
filter_ext f g v w em ek h = λ i. record { m = em i; k = ek i; bits = same_bits i }
  where
    same_bit : (b i : ℕ) → i < 8 → has_bit (get_or f.bits b 0) i ≡ has_bit (get_or g.bits b 0) i
    same_bit b i p =
        let byte : (b * 8 + i) / 8 ≡ b = omega arith in
        let place : (b * 8 + i) % 8 ≡ i = omega arith in
        rw (byte, place) at
          (sym (get_idx-eq-has_bit f (b * 8 + i))
            ∙ h (b * 8 + i)
            ∙ get_idx-eq-has_bit g (b * 8 + i))

    same_bits : f.bits ≡ g.bits
    same_bits = get_or_ext 0 f.bits g.bits (omega (arith, v.sized, w.sized)) λ b p.
        byte_ext (get_or f.bits b 0) (get_or g.bits b 0)
          (All-get_or IsByte f.bits b 0 v.bytes (omega arith))
          (All-get_or IsByte g.bits b 0 w.bytes (omega arith)) (same_bit b)
