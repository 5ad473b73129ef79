-- ===== src/Hash/Bounds.antt =====
-- The range of `hash`.
use bloom_filter_jyy_0098_go.Base.{ℕ, ◌<◌, List, arith}
use bloom_filter_jyy_0098_go.Hash.{hash}

pub hash-lt : (item : List ℕ) (i m : ℕ) → 0 < m → hash item i m < m
unfolding hash
hash-lt item i m h = ground arith
