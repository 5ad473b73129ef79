-- ===== src/Counting/Counters.antt =====
-- `getCounter` and `setCounter` of counting.go on the counters packed in the array.
use bloom_filter_jyy_0098_go.Base.{
  ◌≢◌, refl, ap, ◌∙◌, byte_ext, ◌==◌, All, IsByte, Bool, ℕ, zero, suc, ◌+◌, ◌-◌, ◌*◌, ◌/◌, ◌%◌, ◌^◌,
  ◌<◌, ◌≤◌, ◌≡◌, ◌≢◌, refl, ap, ◌∙◌, List, length, arith, All, IsByte, Bool, true, false, ◌&&◌,
  ◌||◌, ◌==◌, leb, ltb, if◌then◌else◌, bit_or, has_bit, u64, has_bit-bit_or, has_bit-pow,
  has_bit-zero, byte_ext, bit_or-lt, two_pow-lt, Bool-cases, inl, inr, has_bit-bit, bit-lt-pow,
}
use native.Mathlib.Nat.{mul-le-mul_right, pow-le-pow_right}
use native.Mathlib.Decide.{ℕ_discrete, dec_lt}
use bloom_filter_jyy_0098_go.Counting.{
  CountingFilter, data_len, bit_at, put_bit, read_loop, read_bits, write_loop, write_bits,
  get_counter, set_counter,
}
use bloom_filter_jyy_0098_go.Counting.Positions.{
  IsCounting, length-put_bit, bit_at-put_bit, put_bit-IsByte,
}

-- A bit of what `readBits` reads.
has_bit-read_loop :
    (bytes : List ℕ) (offset left i result t : ℕ)
    → i + left ≤ 8
    → offset + 8 < 2 ^ 64
    → t < 8
    → has_bit (read_loop bytes offset left i result) t
      ≡ (has_bit result t || (leb i t && ltb t (i + left) && bit_at bytes (offset + t)))
unfolding read_loop
has_bit-read_loop bytes offset zero i result t few fits h = ground arith
has_bit-read_loop bytes offset (suc left) i result t few fits h =
    let here : (offset + i) % 2 ^ 64 ≡ offset + i = omega arith in
    let small : 2 ^ i % 2 ^ 8 ≡ 2 ^ i = omega (arith, two_pow-lt i) in
    rw (here, small)
      (elim (Bool-cases (bit_at bytes (offset + i))) [
        | inl e ↦ ground (
          arith,
          e,
          has_bit-read_loop bytes offset left (i + 1) (bit_or result (2 ^ i)) t (omega arith) fits
              h,
          has_bit-bit_or result (2 ^ i) t,
          has_bit-pow i t,
        )
        | inr e ↦
            ground
              (arith, e, has_bit-read_loop bytes offset left (i + 1) result t (omega arith) fits h)
      ])

read_loop-lt :
    (bytes : List ℕ) (offset left i result : ℕ)
    → i + left ≤ 8
    → result < 256
    → read_loop bytes offset left i result < 256
unfolding read_loop
read_loop-lt bytes offset zero i result few h = h
read_loop-lt bytes offset (suc left) i result few h =
    let small : 2 ^ i % 2 ^ 8 ≡ 2 ^ i = omega (arith, two_pow-lt i) in
    rw small (elim (Bool-cases (bit_at bytes (u64 (offset + i)))) [
      | inl e ↦ ground (
        arith,
        e,
        read_loop-lt bytes offset left (i + 1) (bit_or result (2 ^ i)) (omega arith)
            (bit_or-lt 8 result (2 ^ i) h (two_pow-lt i (omega arith))),
      )
      | inr e ↦ ground (arith, e, read_loop-lt bytes offset left (i + 1) result (omega arith) h)
    ])

-- A round of `writeBits` inside the array.
write_loop-suc :
    (bytes : List ℕ) (offset val left i : ℕ)
    → offset + i < 8 * length bytes
    → 8 * length bytes < 2 ^ 64
    → write_loop bytes offset val (suc left) i
      ≡ write_loop (put_bit bytes (offset + i) (has_bit val i)) offset val left (i + 1)
unfolding write_loop
write_loop-suc bytes offset val left i room fits =
    let here : u64 (offset + i) ≡ offset + i = omega arith in
    let inside : leb (length bytes) ((offset + i) / 8) ≡ false = ground arith in
    ground (
      arith,
      ap
          (λ j. elim (leb (length bytes) (j / 8)) [
            | true ↦ bytes
            | false ↦ write_loop (put_bit bytes j (has_bit val i)) offset val left (i + 1)
          ])
          here,
      inside,
    )

-- Every bit of the array after `writeBits`, where the bits to write are in the array.
bit_at-write_loop :
    (bytes : List ℕ) (offset val left i j : ℕ)
    → offset + i + left ≤ 8 * length bytes
    → 8 * length bytes < 2 ^ 64
    → bit_at (write_loop bytes offset val left i) j ≡ (
        if leb (offset + i) j && ltb j (offset + i + left)
        then has_bit val (j - offset)
        else bit_at bytes j)
unfolding write_loop
bit_at-write_loop bytes offset val zero i j room fits = ground arith
bit_at-write_loop bytes offset val (suc left) i j room fits =
    let next = put_bit bytes (offset + i) (has_bit val i) in
    ap (λ b. bit_at b j) (write_loop-suc bytes offset val left i (omega arith) fits)
    ∙ ground (
      arith,
      length-put_bit bytes (offset + i) (has_bit val i),
      bit_at-put_bit bytes (offset + i) j (has_bit val i),
      bit_at-write_loop next offset val left (i + 1) j
          (omega (arith, length-put_bit bytes (offset + i) (has_bit val i)))
          (omega (arith, length-put_bit bytes (offset + i) (has_bit val i))),
    )

-- `writeBits` keeps the size of the array and writes bytes.
write_loop-kept :
    (bytes : List ℕ) (offset val left i : ℕ)
    → All IsByte bytes
    → (length (write_loop bytes offset val left i) ≡ length bytes)
      × All IsByte (write_loop bytes offset val left i)
unfolding write_loop
write_loop-kept bytes offset val zero i h = (refl, h)
write_loop-kept bytes offset val (suc left) i h =
    let at = u64 (offset + i) in
    let next = put_bit bytes at (has_bit val i) in
    let rest =
      write_loop-kept next offset val left (i + 1) (put_bit-IsByte bytes at (has_bit val i) h) in
    go (write_loop next offset val left (i + 1)) (leb (length bytes) (at / 8))
      (rest.0 ∙ length-put_bit bytes at (has_bit val i), rest.1)
  where
    go :
        (next : List ℕ) (outside : Bool)
        → (length next ≡ length bytes) × All IsByte next
        → (length (elim outside [ true ↦ bytes | false ↦ next ]) ≡ length bytes)
          × All IsByte (elim outside [ true ↦ bytes | false ↦ next ])
    go next true r = (refl, h)
    go next false r = r

has_bit_above : (n a t : ℕ) → a < 2 ^ n → n ≤ t → has_bit a t ≡ false
has_bit_above n a t small h = ground (arith, has_bit-bit a t, bit-lt-pow n a t small h)

-- The counters of two positions take different bits.
apart : (c p q t : ℕ) → p < q → t < c → p * c + t < q * c
apart c p q t h small = let le : suc p * c ≤ q * c = mul-le-mul_right c h in omega (arith, le)

other_bits :
    (c p q t : ℕ) → p ≢ q → t < c → (leb (p * c) (q * c + t) && ltb (q * c + t) (p * c + c)) ≡ false
other_bits c p q t ne small = elim (dec_lt p q) [
  | yes below ↦ ground (arith, apart c p q (c - 1) below (omega arith))
  | no above ↦ ground (arith, apart c q p t (omega arith) small)
]

module _ (f : CountingFilter) (v : IsCounting f) where
  -- The array has room for every counter, and nothing wraps.
  in_range :
      (q : ℕ)
      → q < f.m
      → (q * f.counter_bits + f.counter_bits ≤ 8 * length f.bytes)
        × (8 * length f.bytes < 2 ^ 64)
        × (u64 (q * f.counter_bits) ≡ q * f.counter_bits)
  unfolding data_len
  in_range q h =
      let c = f.counter_bits in
      let le : suc q * c ≤ f.m * c = mul-le-mul_right c h in
      let size : length f.bytes ≡ (f.m * c + 7) / 8 = omega (arith, v.sized, v.no_wrap) in
      (omega (arith, le, size), omega (arith, size, v.no_wrap), omega (arith, le, v.no_wrap))

  -- A bit of a counter.
  has_bit-get_counter :
      (q t : ℕ)
      → q < f.m
      → t < 8
      → has_bit (get_counter f q) t
        ≡ (ltb t f.counter_bits && bit_at f.bytes (q * f.counter_bits + t))
  unfolding get_counter read_bits
  has_bit-get_counter q t h small =
      let r = in_range q h in
      rw (r.2) (
        ground (
          arith,
          has_bit-read_loop f.bytes (q * f.counter_bits) f.counter_bits 0 0 t
              (omega (arith, v.counter_few)) (omega (arith, r.0, r.1, v.counter_pos)) small,
          has_bit-zero t,
        ))

  get_counter-lt : (q : ℕ) → get_counter f q < 256
  unfolding get_counter read_bits
  get_counter-lt q =
      read_loop-lt f.bytes (u64 (q * f.counter_bits)) f.counter_bits 0 0
        (omega (arith, v.counter_few)) (omega arith)

  -- A bit of the array after a counter is written.
  bit_at-set_counter :
      (p val j : ℕ)
      → p < f.m
      → bit_at (set_counter f p val).bytes j ≡ (
          if leb (p * f.counter_bits) j && ltb j (p * f.counter_bits + f.counter_bits)
          then has_bit val (j - p * f.counter_bits)
          else bit_at f.bytes j)
  unfolding set_counter write_bits
  bit_at-set_counter p val j h =
      let r = in_range p h in
      rw (r.2) (
        ground (
          arith,
          bit_at-write_loop f.bytes (p * f.counter_bits) val f.counter_bits 0 j (omega (arith, r.0))
              r.1,
        ))

  pub IsCounting-set_counter : (p val : ℕ) → IsCounting (set_counter f p val)
  unfolding set_counter write_bits
  IsCounting-set_counter p val =
      let kept =
        write_loop-kept f.bytes (u64 (p * f.counter_bits)) val f.counter_bits 0 v.all_bytes in
      record {
        m_pos = v.m_pos;
        k_pos = v.k_pos;
        counter_pos = v.counter_pos;
        counter_few = v.counter_few;
        no_wrap = v.no_wrap;
        max_is = v.max_is;
        sized = kept.0 ∙ v.sized;
        all_bytes = kept.1;
      }

  params-set_counter :
      (p val : ℕ)
      → ((set_counter f p val).m ≡ f.m) × ((set_counter f p val).counter_bits ≡ f.counter_bits)
  unfolding set_counter
  params-set_counter p val = (refl, refl)

-- A bit of a counter after one is written.
has_bit-set_counter :
    (f : CountingFilter) (v : IsCounting f) (p q val t : ℕ)
    → p < f.m
    → q < f.m
    → val < 2 ^ f.counter_bits
    → t < 8
    → has_bit (get_counter (set_counter f p val) q) t
      ≡ has_bit (if p == q then val else get_counter f q) t
has_bit-set_counter f v p q val t hp hq small h =
    let g = set_counter f p val in
    let w = IsCounting-set_counter f v p val in
    elim (dec_lt t f.counter_bits) [
      | yes inside ↦ elim (ℕ_discrete p q) [
        | yes e ↦ ground (
          arith,
          e,
          params-set_counter f v p val,
          has_bit-get_counter g w q t (omega (arith, params-set_counter f v p val, hq)) h,
          bit_at-set_counter f v p val (q * f.counter_bits + t) hp,
        )
        | no ne ↦ ground (
          arith,
          params-set_counter f v p val,
          has_bit-get_counter f v q t hq h,
          has_bit-get_counter g w q t (omega (arith, params-set_counter f v p val, hq)) h,
          bit_at-set_counter f v p val (q * f.counter_bits + t) hp,
          other_bits f.counter_bits p q t ne inside,
        )
      ]
      | no outside ↦ ground (
        arith,
        params-set_counter f v p val,
        has_bit-get_counter f v q t hq h,
        has_bit-get_counter g w q t (omega (arith, params-set_counter f v p val, hq)) h,
        has_bit_above f.counter_bits val t small,
      )
    ]

-- A counter of a valid filter that is written reads as the value, if that fits its bits, and no
-- other counter changes; the filter stays valid.
pub get_counter-set_counter :
    (f : CountingFilter) (p q val : ℕ)
    → IsCounting f
    → p < f.m
    → q < f.m
    → val < 2 ^ f.counter_bits
    → (get_counter (set_counter f p val) q ≡ (if p == q then val else get_counter f q))
      × IsCounting (set_counter f p val)
get_counter-set_counter f p q val v hp hq small =
    let byte : val < 256 = omega (arith, pow-le-pow_right {n = 2} (omega arith) v.counter_few) in
    (
      byte_ext (get_counter (set_counter f p val) q) (if p == q then val else get_counter f q)
          (get_counter-lt (set_counter f p val) (IsCounting-set_counter f v p val) q)
          (ground (arith, get_counter-lt f v q))
          (λ t h. has_bit-set_counter f v p q val t hp hq small h),
      IsCounting-set_counter f v p val,
    )
