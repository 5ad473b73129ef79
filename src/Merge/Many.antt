-- ===== src/Merge/Many.antt =====
-- `UnionMany` over the filters of any number of nodes.
use bloom_filter_jyy_0098_go.Base.{
  ℕ, ◌≡◌, ap, sym, ◌∙◌, some, Option, List, [], ◌∷◌, ◌++◌, arith, bit_or, ok,
}
use mathlib.Core.List.{append_assoc, append-nil}
use bloom_filter_jyy_0098_go.Filter.{BloomFilter, add_all}
use bloom_filter_jyy_0098_go.Filter.Valid.{IsValid, add_all-IsValid}
use bloom_filter_jyy_0098_go.Filter.View.{params-add_all}
use bloom_filter_jyy_0098_go.Filter.Ops.{zip_bytes}
use bloom_filter_jyy_0098_go.Filter.Ops.Algebra.{Matches-sized, zipped}
use bloom_filter_jyy_0098_go.Filter.Ops.Bytes.{zip_bytes-eq-zip_with}
use bloom_filter_jyy_0098_go.Filter.Ops.Merged.{zipped-add_all, add_all-Matches}
use bloom_filter_jyy_0098_go.Merge.{MergeError, union_many, many_loop}
use bloom_filter_jyy_0098_go.Merge.Agrees.{new_from_parts-IsValid}

-- The items of all nodes, and their filters: each node adds its items to `e`.
abbrev pub all_items : List (List (List ℕ)) → List (List ℕ)
all_items [] = []
all_items (xs ∷ rest) = xs ++ all_items rest

abbrev pub node_filters : BloomFilter → List (List (List ℕ)) → List (Option BloomFilter)
node_filters e [] = []
node_filters e (xs ∷ rest) = some (add_all e xs) ∷ node_filters e rest

zip_bytes-add_all :
    (e : BloomFilter) (xs ys : List (List ℕ))
    → IsValid e
    → zip_bytes {E = MergeError} bit_or (add_all e xs).bits (add_all e ys).bits
      ≡ ok (add_all e (xs ++ ys)).bits
unfolding zipped
zip_bytes-add_all e xs ys v =
    zip_bytes-eq-zip_with bit_or (add_all e xs).bits (add_all e ys).bits
      (Matches-sized (add_all-Matches e xs ys v))
    ∙ ap (λ (f : BloomFilter). ok f.bits) (zipped-add_all e xs ys v)

many_loop-add_all :
    (e : BloomFilter) (xs : List (List ℕ)) (rest : List (List (List ℕ)))
    → IsValid e
    → many_loop bit_or (add_all e xs).m (add_all e xs).k (add_all e xs).bits (node_filters e rest)
      ≡ ok (add_all e (xs ++ all_items rest)).bits
unfolding many_loop
many_loop-add_all e xs [] v =
    ap (λ (ys : List (List ℕ)). ok (add_all e ys).bits) (sym (append-nil xs))
many_loop-add_all e xs (ys ∷ rest) v = ground (
  arith,
  zip_bytes-add_all e xs ys v,
  params-add_all e xs,
  params-add_all e ys,
  params-add_all e (xs ++ ys),
  many_loop-add_all e (xs ++ ys) rest v,
  append_assoc xs ys (all_items rest),
)

-- The parameters of one node's filter with the array of another make that other filter.
parts-add_all :
    (e : BloomFilter) (xs ys : List (List ℕ))
    → record (add_all e xs) { bits = (add_all e ys).bits } ≡ add_all e ys
parts-add_all e xs ys = λ i. record {
  m = ((params-add_all e xs).0 ∙ sym (params-add_all e ys).0) i;
  k = ((params-add_all e xs).1 ∙ sym (params-add_all e ys).1) i;
  bits = (add_all e ys).bits;
}

-- `UnionMany` over the filters of one or more nodes, each of which added its items to the same
-- valid filter, gives the filter of a single node that added all the items.
pub union_many-add_all :
    (e : BloomFilter) (xs : List (List ℕ)) (rest : List (List (List ℕ)))
    → IsValid e
    → union_many (node_filters e (xs ∷ rest)) ≡ ok (add_all e (all_items (xs ∷ rest)))
unfolding union_many
union_many-add_all e xs rest v =
    let all = xs ++ all_items rest in
    let valid = add_all-IsValid e xs v in
    let sized = add_all-IsValid e all v in
    ground (
      arith,
      many_loop-add_all e xs rest v,
      new_from_parts-IsValid (add_all e xs) (add_all e all).bits valid
          (omega (arith, valid.sized, sized.sized, params-add_all e xs, params-add_all e all)),
      parts-add_all e xs all,
    )
