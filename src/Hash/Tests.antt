-- ===== src/Hash/Tests.antt =====
-- The theorems on hashes at a word, the published value of MurmurHash3 with 128 bits for it, and
-- the sort at a short list.
use bloom_filter_jyy_0098_go.Base.{◌≡◌, refl, ℕ, List, [], ◌∷◌}
use bloom_filter_jyy_0098_go.Hash.Murmur3.{murmur3_sum128}
use bloom_filter_jyy_0098_go.Hash.Enhanced.{sort}

abbrev hello : List ℕ
hello = b'h' ∷ b'e' ∷ b'l' ∷ b'l' ∷ b'o' ∷ []

murmur3_hello : murmur3_sum128 hello 0 ≡ (0xcbd8a7b341bd9b02, 0x5b1e906a48ae1d19)
unfolding murmur3_sum128
murmur3_hello = refl

sort_runs : sort (5 ∷ 1 ∷ 3 ∷ []) ≡ 1 ∷ 3 ∷ 5 ∷ []
unfolding sort
sort_runs = refl
