-- ===== src/Base/Words.antt =====
-- Go's integers: an unsigned value is a number below `2 ^ w`, and arithmetic wraps.
use Prim.Native.Nat.{ℕ, ◌+◌, ◌%◌, ◌^◌, ◌<◌}
use mathlib.Core.Bool.{Bool}
use bloom_filter_jyy_0098_go.Base.Tests.{ltb, leb}

abbrev pub u8 : ℕ → ℕ
u8 n = n % 2 ^ 8

abbrev pub u16 : ℕ → ℕ
u16 n = n % 2 ^ 16

abbrev pub u32 : ℕ → ℕ
u32 n = n % 2 ^ 32

abbrev pub u64 : ℕ → ℕ
u64 n = n % 2 ^ 64

abbrev pub IsByte : ℕ → Type 0
IsByte b = b < 256

-- A Go int is kept as its 64 bits: the comparisons are signed.
abbrev pub int_lt : ℕ → ℕ → Bool
int_lt a b = ltb (u64 (a + 2 ^ 63)) (u64 (b + 2 ^ 63))

abbrev pub int_le : ℕ → ℕ → Bool
int_le a b = leb (u64 (a + 2 ^ 63)) (u64 (b + 2 ^ 63))
