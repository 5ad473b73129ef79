-- ===== src/Hash.antt =====
-- internal/hash: the bit index that the i-th hash function gives to some data.
pub mod Bounds
pub mod Murmur3
pub mod Enhanced
mod Tests
use bloom_filter_jyy_0098_go.Base.{ℕ, ◌+◌, ◌*◌, ◌%◌, List, u64, ◌==◌, if◌then◌else◌}
use bloom_filter_jyy_0098_go.Std.Fnv.{sum64a, sum64}

unfoldable pub fnv64a : List ℕ → ℕ
fnv64a item = sum64a item

unfoldable pub fnv64 : List ℕ → ℕ
fnv64 item = sum64 item

-- `Hash(data, i, m)`: double hashing in wrapping 64-bit arithmetic, reduced modulo m.
unfoldable pub hash : List ℕ → ℕ → ℕ → ℕ
unfolding fnv64a fnv64
hash item i m =
    if m == 0 then 0 else let h1 = fnv64a item in let h2 = fnv64 item in u64 (h1 + u64 (i * h2)) % m
