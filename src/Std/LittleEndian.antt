-- ===== src/Std/LittleEndian.antt =====
-- encoding/binary, LittleEndian: the least significant byte comes first.
use bloom_filter_jyy_0098_go.Base.{ℕ, ◌/◌, ◌%◌, ◌^◌, List, [], ◌∷◌}

unfoldable pub put_uint64 : ℕ → List ℕ
put_uint64 v =
    v % 256
    ∷ v / 2 ^ 8 % 256
    ∷ v / 2 ^ 16 % 256
    ∷ v / 2 ^ 24 % 256
    ∷ v / 2 ^ 32 % 256
    ∷ v / 2 ^ 40 % 256
    ∷ v / 2 ^ 48 % 256
    ∷ v / 2 ^ 56 % 256
    ∷ []
