-- ===== src/Cli/Filters.antt =====
-- `add` and then `check` of main.go, on a file of the codec.
use bloom_filter_jyy_0098_go.Base.{
  ℕ, ◌<◌, ◌≡◌, refl, sym, ap, ◌∙◌, List, [], ◌∷◌, length, ok, some, arith, true, ne→==, append-nil,
}
use mathlib.Core.List.{Mem, not-mem-nil}
use bloom_filter_jyy_0098_go.Filter.{BloomFilter, add_all}
use bloom_filter_jyy_0098_go.Filter.Valid.{IsValid, add_all-IsValid}
use bloom_filter_jyy_0098_go.Filter.View.{params-add_all}
use bloom_filter_jyy_0098_go.Filter.Membership.{test-add_all}
use bloom_filter_jyy_0098_go.Codec.{marshal, unmarshal}
use bloom_filter_jyy_0098_go.Codec.RoundTrip.{FitsFormat, unmarshal-marshal}
use bloom_filter_jyy_0098_go.Cli.{
  Read, contents, run_add, run_check, load_or_new, all_items, read_file,
}

unmarshal-marshal_exact :
    (f : BloomFilter) → IsValid f → FitsFormat f → unmarshal (marshal (some f)) ≡ ok f
unmarshal-marshal_exact f v fits =
    ap unmarshal (sym (append-nil (marshal (some f)))) ∙ unmarshal-marshal f [] v fits

length-Mem : {A : Type 0} {x : A} (xs : List A) → Mem x xs → 0 < length xs
length-Mem [] m = absurd (not-mem-nil m)
length-Mem (y ∷ xs) m = omega arith

-- When `add`, with a file name that is not empty, can load the file, or there is none, and can write
-- it, and the filter that it loads or makes is well-formed and fits the format, it succeeds, and
-- `check` on the bytes that it wrote reports every item of its arguments that is not empty.
pub run_check-run_add :
    (file item : List ℕ) (values args : List (List ℕ)) (read : Read) (f : BloomFilter)
    → 0 < length file
    → 0 < length item
    → load_or_new read ≡ ok f
    → IsValid f
    → FitsFormat f
    → Mem item (all_items [] values args)
    → (bytes : List ℕ) × (n : ℕ) × (run_add file values args read true ≡ ok (bytes, n))
      × (run_check file item (contents bytes) ≡ ok true)
unfolding run_add run_check read_file
run_check-run_add file item values args read f hf hi loaded v fits m =
    let items = all_items [] values args in
    let g = add_all f items in
    let gv = add_all-IsValid f items v in
    let kept = params-add_all f items in
    let gf : FitsFormat g = record {
      m_32 = omega (arith, kept.0, fits.m_32);
      k_32 = omega (arith, kept.1, fits.k_32);
    } in
    let named = ne→== (length file) 0 (λ q. omega (arith, q, hf)) in
    (
      marshal (some g),
      length items,
      rw
          (
            run_add,
            named,
            ne→== (length items) 0 (λ q. omega (arith, q, length-Mem items m)),
            loaded,
          )
          refl,
      rw
          (
            run_check,
            named,
            ne→== (length item) 0 (λ q. omega (arith, q, hi)),
            unmarshal-marshal_exact g gv gf,
            test-add_all f items item v m,
          )
          refl,
    )
