-- ===== src/Std/Fnv.antt =====
-- hash/fnv: FNV-1 and FNV-1a of 64 bits. `sum` functions take the bytes written so far.
use bloom_filter_jyy_0098_go.Base.{ℕ, ◌*◌, ◌≡◌, refl, List, [], ◌∷◌, bit_xor, u64}

abbrev offset64 : ℕ
offset64 = 14695981039346656037

abbrev prime64 : ℕ
prime64 = 1099511628211

write64a : ℕ → List ℕ → ℕ
write64a h [] = h
write64a h (b ∷ bs) = write64a (u64 (bit_xor h b * prime64)) bs

write64 : ℕ → List ℕ → ℕ
write64 h [] = h
write64 h (b ∷ bs) = write64 (bit_xor (u64 (h * prime64)) b) bs

-- `New64a`, `Write(data)`, `Sum64`
unfoldable pub sum64a : List ℕ → ℕ
unfolding write64a
sum64a = write64a offset64

-- `New64`, `Write(data)`, `Sum64`
unfoldable pub sum64 : List ℕ → ℕ
unfolding write64
sum64 = write64 offset64

-- FNV-1a of "a" and FNV-1 of "a", as published with the algorithm.
sum64a_of_a : sum64a (b'a' ∷ []) ≡ 0xaf63dc4c8601ec8c
unfolding sum64a
sum64a_of_a = refl

sum64_of_a : sum64 (b'a' ∷ []) ≡ 0xaf63bd4c8601b7be
unfolding sum64
sum64_of_a = refl
