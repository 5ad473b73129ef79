-- ===== src/Store/Sound.antt =====
-- The store that `Open` makes of any bytes at all is a sound one.
use bloom_filter_jyy_0098_go.Base.{
  ℕ, zero, suc, ◌+◌, ◌^◌, ◌<◌, ◌≤◌, ◌≡◌, refl, ap, subst, ◌⊎◌, inl, inr, some, List, [], ◌∷◌,
  length, take, drop, slice, arith, All, IsByte, ok, err, ◌==◌, length-take, Option-cases,
  Bool-cases, Result-cases, All-append_right, All-drop, All-take,
}
use bloom_filter_jyy_0098_go.Std.BigEndian.{uint32, uint32-lt}
use bloom_filter_jyy_0098_go.Filter
use bloom_filter_jyy_0098_go.Filter.{BloomFilter, new}
use bloom_filter_jyy_0098_go.Filter.Valid.{IsValid, add-IsValid, new-IsValid}
use bloom_filter_jyy_0098_go.Filter.View.{params-add}
use bloom_filter_jyy_0098_go.Codec.{unmarshal}
use bloom_filter_jyy_0098_go.Codec.Formats.{unmarshal-IsValid}
use bloom_filter_jyy_0098_go.Store.{
  Store, Parsed, Replay, replay_record, replay_add, replay_checkpoint, open_file, opened,
  corrupt_header, not_store, rec_checkpoint,
}
use bloom_filter_jyy_0098_go.Store.Log.{fresh, default_filter-eq-fresh}
use bloom_filter_jyy_0098_go.Store.Parse.{parse-IsByte}
use bloom_filter_jyy_0098_go.Store.Chain.{Chain, chain_end, replay_all, chain_end-le}
use bloom_filter_jyy_0098_go.Store.Reopen.{
  start_at, opens_or_fails, found, split, m, opens, pos-replayed,
}

-- A store whose filter is valid, whose k is its filter's, and whose file is a prefix of the bytes.
pub record IsSound (b : List ℕ) (s : Store) : Type 0 where
  pub bf : BloomFilter
  pub filter : s.filter ≡ some bf
  pub valid : IsValid bf
  pub k : s.k ≡ bf.k
  pub prefix : s.file ≡ take (length s.file) b

-- The variables of the second pass: the filter, if there is one, is valid, and k is its own.
abbrev IsKept : Replay → Type 0
IsKept s = (f : BloomFilter) → s.bf ≡ some f → IsValid f × (s.k ≡ f.k)

kept :
    {f : BloomFilter} {k : ℕ} (p : ℕ)
    → IsValid f
    → k ≡ f.k
    → IsKept (record { bf = some f; k = k; pos = p })
kept {f} {k} p v e g q =
    let is : f ≡ g = ground (arith, q) in
    subst (λ (h : BloomFilter). IsValid h × (k ≡ h.k)) is (v, e)

k-fresh : (m : ℕ) → 7 ≡ (fresh m).k
unfolding fresh
k-fresh m = refl

fresh-IsValid : (m : ℕ) → 0 < m → m < 2 ^ 32 → IsValid (fresh m)
unfolding fresh new
fresh-IsValid zero h small = absurd (omega arith)
fresh-IsValid (suc m) h small = new-IsValid (suc m) 7 (omega arith) (omega arith) (ground arith)

module _ (m : ℕ) (pos : 0 < m) (small : m < 2 ^ 32) where
  replay_add-IsKept :
      (item : List ℕ) (s : Replay)
      → IsKept s
      → (s' : Replay) × (replay_add m item s ≡ some s') × IsKept s'
  unfolding replay_add
  replay_add-IsKept item s h = elim (Option-cases s.bf) [
    | inl e ↦ (
      record s { bf = some (Filter.add (fresh m) item); k = 7 },
      ground (arith, e, default_filter-eq-fresh m pos),
      kept s.pos (add-IsValid (fresh m) item (fresh-IsValid m pos small))
          (ground (arith, k-fresh m, params-add (fresh m) item)),
    )
    | inr q ↦ (
      record s { bf = some (Filter.add (q.0) item) },
      ground (arith, q.1),
      let good = h q.0 q.1 in
          kept s.pos (add-IsValid (q.0) item good.0)
            (ground (arith, params-add (q.0) item, good.1)),
    )
  ]

  replay_checkpoint-IsKept :
      (payload : List ℕ) (s : Replay)
      → All IsByte payload
      → IsKept s
      → IsKept (replay_checkpoint payload s)
  unfolding replay_checkpoint
  replay_checkpoint-IsKept payload s bytes h = elim (Result-cases (unmarshal payload)) [
    | inl q ↦ rw (replay_checkpoint, q.1) (kept s.pos (unmarshal-IsValid payload bytes q.1).0 refl)
    | inr (inl q) ↦ rw (replay_checkpoint, q.1) h
    | inr (inr q) ↦ rw (replay_checkpoint, q) h
  ]

  replay_record-IsKept :
      (r : Parsed) (s : Replay)
      → All IsByte r.payload
      → IsKept s
      → (s' : Replay) × (replay_record m r s ≡ some s') × IsKept s'
  unfolding replay_record
  replay_record-IsKept r s bytes h = elim (Bool-cases (r.typ == rec_checkpoint)) [
    | inl t ↦
        (replay_checkpoint r.payload s, rw t refl, replay_checkpoint-IsKept r.payload s bytes h)
    | inr t ↦ let a = replay_add-IsKept r.payload s h in (a.0, rw t a.1, a.2)
  ]

  replay_all-IsKept :
      (rs : List Parsed) (s : Replay)
      → All (λ (r : Parsed). All IsByte r.payload) rs
      → IsKept s
      → (s' : Replay) × (replay_all m rs s ≡ some s') × IsKept s'
  replay_all-IsKept [] s bytes h = (s, refl, h)
  replay_all-IsKept (r ∷ rs) s bytes h =
      let one = replay_record-IsKept r s bytes.0 h in
      let rest =
        replay_all-IsKept rs (record (one.0) { pos = (one.0).pos + r.size }) bytes.1 one.2 in
      (rest.0, ground (arith, one.1, rest.1), rest.2)

  opened-IsSound :
      (b : List ℕ) (s : Replay) → IsKept s → s.pos ≤ length b → IsSound b (opened b m s)
  unfolding opened
  opened-IsSound b s h within = elim (Option-cases s.bf) [
    | inl e ↦
        rw (e, default_filter-eq-fresh m pos)
          (record {
            bf = fresh m;
            filter = refl;
            valid = fresh-IsValid m pos small;
            k = k-fresh m;
            prefix = prefix;
          })
    | inr q ↦ rw q.1 (record {
      bf = q.0;
      filter = refl;
      valid = (h q.0 q.1).0;
      k = (h q.0 q.1).1;
      prefix = prefix;
    })
  ]
    where
      prefix : take s.pos b ≡ take (length (take s.pos b)) b
      prefix = ap (λ n. take n b) (omega (arith, length-take s.pos b))

payloads-IsByte :
    (b : List ℕ) (p : ℕ) (rs : List Parsed)
    → All IsByte b
    → Chain b p rs
    → All (λ (r : Parsed). All IsByte r.payload) rs
payloads-IsByte b p [] bytes c = tt
payloads-IsByte b p (r ∷ rs) bytes c = (
  parse-IsByte (drop p b) (All-drop IsByte p b bytes) c.0,
  payloads-IsByte b (p + r.size) rs bytes c.1,
)

-- `Open` on any bytes whose header names a number of bits that is not 0 does not panic: it reports
-- one of its two errors, or returns a store with a valid filter, the k of that filter, and a prefix
-- of those bytes as its file.
pub open_file-IsSound :
    (b : List ℕ)
    → All IsByte b
    → 0 < uint32 (slice b 4 8)
    → (open_file b ≡ err corrupt_header)
      ⊎ (open_file b ≡ err not_store)
      ⊎ ((s : Store) × (open_file b ≡ ok s) × IsSound b s)
open_file-IsSound b bytes pos = elim (opens_or_fails b) [
  | inl q ↦ inl q.1
  | inr (inl q) ↦ inr (inl q)
  | inr (inr hd) ↦
      let small =
        uint32-lt (slice b 4 8) (All-take IsByte 4 (drop 4 b) (All-drop IsByte 4 b bytes)) in
      let rs = (found b hd).0 in
      let cut = split b hd in
      let payloads =
        subst (All (λ (r : Parsed). All IsByte r.payload)) cut.whole
          (payloads-IsByte b 8 rs bytes (found b hd).2) in
      let end =
        replay_all-IsKept (m b hd) pos small cut.after (start_at (chain_end 8 cut.before))
          (All-append_right (λ (r : Parsed). All IsByte r.payload) cut.before cut.after payloads)
          (λ f q. absurd (ground (arith, q))) in
      let within = chain_end-le b 8 rs (found b hd).2 hd.long in
      inr (
        inr (
          opened b (m b hd) end.0,
          ground (arith, opens b hd, end.1),
          opened-IsSound (m b hd) pos small b end.0 end.2
              (omega (arith, pos-replayed b hd end.1, within.1)),
        ))
]
