-- ===== src/Std/Crc32.antt =====
-- hash/crc32, ChecksumIEEE: the reflected CRC of polynomial 0xedb88320, bit by bit.
use bloom_filter_jyy_0098_go.Base.{
  ℕ, zero, suc, ◌/◌, ◌%◌, ◌^◌, ◌<◌, ◌≡◌, refl, List, [], ◌∷◌, bit_xor, bit_xor-lt, if◌then◌else◌,
  ◌==◌, arith, IsByte, All, Bool-cases, inl, inr,
}

abbrev polynomial : ℕ
polynomial = 0xedb88320

shift_out : ℕ → ℕ
shift_out c = if c % 2 == 1 then bit_xor (c / 2) polynomial else c / 2

shift_outs : ℕ → ℕ → ℕ
shift_outs zero c = c
shift_outs (suc n) c = shift_outs n (shift_out c)

update : ℕ → List ℕ → ℕ
update c [] = c
update c (b ∷ bs) = update (shift_outs 8 (bit_xor c b)) bs

unfoldable pub checksum_ieee : List ℕ → ℕ
unfolding update shift_outs shift_out
checksum_ieee bytes = bit_xor (update 0xffffffff bytes) 0xffffffff

-- The check value of the CRC: its value at "123456789".
checksum_ieee_check :
    checksum_ieee (b'1' ∷ b'2' ∷ b'3' ∷ b'4' ∷ b'5' ∷ b'6' ∷ b'7' ∷ b'8' ∷ b'9' ∷ []) ≡ 0xcbf43926
unfolding checksum_ieee
checksum_ieee_check = refl

shift_out-lt : (c : ℕ) → c < 2 ^ 32 → shift_out c < 2 ^ 32
unfolding shift_out
shift_out-lt c h = elim (Bool-cases (c % 2 == 1)) [
  | inl e ↦ rw e (bit_xor-lt 32 (c / 2) polynomial (omega arith) (omega arith))
  | inr e ↦ rw e (omega arith)
]

shift_outs-lt : (n c : ℕ) → c < 2 ^ 32 → shift_outs n c < 2 ^ 32
unfolding shift_outs
shift_outs-lt zero c h = h
shift_outs-lt (suc n) c h = shift_outs-lt n (shift_out c) (shift_out-lt c h)

update-lt : (c : ℕ) (bytes : List ℕ) → c < 2 ^ 32 → All IsByte bytes → update c bytes < 2 ^ 32
unfolding update
update-lt c [] h k = h
update-lt c (b ∷ bs) h k =
    update-lt (shift_outs 8 (bit_xor c b)) bs
      (shift_outs-lt 8 (bit_xor c b) (bit_xor-lt 32 c b h (omega arith))) k.1

-- A checksum fits the four bytes that store it.
pub checksum_ieee-lt : (bytes : List ℕ) → All IsByte bytes → checksum_ieee bytes < 2 ^ 32
unfolding checksum_ieee
checksum_ieee-lt bytes k =
    bit_xor-lt 32 (update 0xffffffff bytes) 0xffffffff (update-lt 0xffffffff bytes (omega arith) k)
      (omega arith)
