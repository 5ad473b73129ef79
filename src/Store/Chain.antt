-- ===== src/Store/Chain.antt =====
-- The records of a store file, whatever its bytes are, and the two passes of `Open` as folds over
-- them.
use bloom_filter_jyy_0098_go.Base.{
  ℕ, zero, suc, ◌+◌, ◌-◌, ◌≤◌, ◌≡◌, refl, ap, sym, ◌∙◌, ◌⊎◌, inl, inr, Option, some, none, List, [],
  ◌∷◌, ◌++◌, length, take, drop, arith, if◌then◌else◌, ◌==◌, length-drop, length-take, drop-take,
  Option-cases, Bool-cases, subst,
}
use bloom_filter_jyy_0098_go.Store.Parse.{parse_bounds, parse_short, parse-take}
use bloom_filter_jyy_0098_go.Store.{
  parse_record, Parsed, Replay, last_checkpoint, replay, replay_record, rec_checkpoint, start,
}

-- From offset p on, the file holds these records one behind the other, and then no further one.
abbrev pub Chain : List ℕ → ℕ → List Parsed → Type 0
Chain b p [] = parse_record (drop p b) ≡ none
Chain b p (r ∷ rs) = (parse_record (drop p b) ≡ some r) × Chain b (p + r.size) rs

-- Where the records end.
abbrev pub chain_end : ℕ → List Parsed → ℕ
chain_end p [] = p
chain_end p (r ∷ rs) = chain_end (p + r.size) rs

abbrev pub last_in : List Parsed → ℕ → Option ℕ → Option ℕ
last_in [] p last = last
last_in (r ∷ rs) p last = last_in rs (p + r.size) (if r.typ == rec_checkpoint then some p else last)

abbrev pub replay_all : ℕ → List Parsed → Replay → Option Replay
replay_all m [] s = some s
replay_all m (r ∷ rs) s = elim (replay_record m r s) [
  | none ↦ none
  | some s' ↦ replay_all m rs (record s' { pos = s'.pos + r.size })
]

-- A record moves neither the offset nor, on its way, any byte.
pub pos-replay_record :
    (m : ℕ) (r : Parsed) (s : Replay) {s' : Replay} → replay_record m r s ≡ some s' → s'.pos ≡ s.pos
unfolding replay_record
pos-replay_record m r s e = ground arith

module _ (b : List ℕ) where
  -- The records from offset p on; the bytes behind p are fuel enough.
  pub records_from :
      (fuel p : ℕ) → length b ≤ p + fuel → (rs : List Parsed) × (length rs ≤ fuel) × Chain b p rs
  records_from zero p h = ([], omega arith, parse_short (drop p b) (omega (arith, length-drop p b)))
  records_from (suc fuel) p h = elim (Option-cases (parse_record (drop p b))) [
    | inl e ↦ ([], omega arith, e)
    | inr q ↦
        let size = parse_bounds (drop p b) q.1 in
        let rest = records_from fuel (p + (q.0).size) (omega arith) in
        (q.0 ∷ rest.0, omega (arith, rest.1), (q.1, rest.2))
  ]

  pub last_checkpoint-eq-last_in :
      (fuel : ℕ) (rs : List Parsed) (p : ℕ) (last : Option ℕ)
      → Chain b p rs
      → length rs ≤ fuel
      → last_checkpoint fuel b p last ≡ last_in rs p last
  unfolding last_checkpoint
  last_checkpoint-eq-last_in zero [] p last c h = refl
  last_checkpoint-eq-last_in zero (r ∷ rs) p last c h = absurd (omega arith)
  last_checkpoint-eq-last_in (suc fuel) [] p last c h = ground (arith, c)
  last_checkpoint-eq-last_in (suc fuel) (r ∷ rs) p last c h = ground (
    arith,
    c.0,
    last_checkpoint-eq-last_in fuel rs (p + r.size)
        (if r.typ == rec_checkpoint then some p else last) c.1 (omega arith),
  )

  pub replay-eq-replay_all :
      (fuel m : ℕ) (rs : List Parsed) (s : Replay)
      → Chain b s.pos rs
      → length rs ≤ fuel
      → replay fuel b m s ≡ replay_all m rs s
  unfolding replay
  replay-eq-replay_all zero m [] s c h = refl
  replay-eq-replay_all zero m (r ∷ rs) s c h = absurd (omega arith)
  replay-eq-replay_all (suc fuel) m [] s c h = ground (arith, c)
  replay-eq-replay_all (suc fuel) m (r ∷ rs) s c h = elim (Option-cases (replay_record m r s)) [
    | inl e ↦ ground (arith, c.0, e)
    | inr q ↦
        let rest =
          replay-eq-replay_all fuel m rs (record (q.0) { pos = (q.0).pos + r.size })
            (subst (λ p. Chain b (p + r.size) rs) (sym (pos-replay_record m r s q.1)) c.1)
            (omega arith) in
        ground (arith, c.0, q.1, rest)
  ]

pub chain_end-append :
    (p : ℕ) (xs ys : List Parsed) → chain_end p (xs ++ ys) ≡ chain_end (chain_end p xs) ys
chain_end-append p [] ys = refl
chain_end-append p (x ∷ xs) ys = chain_end-append (p + x.size) xs ys

-- The second pass starts behind some of the records, and before the others.
pub record Split (rs : List Parsed) (p q : ℕ) : Type 0 where
  pub before : List Parsed
  pub after : List Parsed
  pub whole : rs ≡ before ++ after
  pub at : q ≡ chain_end p before

-- The last checkpoint splits the records in two.
Split-last_in :
    (rs : List Parsed) (p : ℕ) (last : Option ℕ)
    → (last_in rs p last ≡ last) ⊎ ((q : ℕ) × (last_in rs p last ≡ some q) × Split rs p q)
Split-last_in [] p last = inl refl
Split-last_in (r ∷ rs) p last =
    elim (Split-last_in rs (p + r.size) (if r.typ == rec_checkpoint then some p else last)) [
      | inl e ↦ elim (Bool-cases (r.typ == rec_checkpoint)) [
        | inl t ↦ inr (
          p,
          e ∙ ap (λ c. if c then some p else last) t,
          record { before = []; after = r ∷ rs; whole = refl; at = refl },
        )
        | inr t ↦ inl (e ∙ ap (λ c. if c then some p else last) t)
      ]
      | inr s ↦ inr (
        s.0,
        s.1,
        record {
          before = r ∷ (s.2).before;
          after = (s.2).after;
          whole = ap (◌∷◌ r) (s.2).whole;
          at = (s.2).at;
        },
      )
    ]

pub resume : (rs : List Parsed) → Split rs 8 (start (last_in rs 8 none))
unfolding start
resume rs = elim (Split-last_in rs 8 none) [
  | inl e ↦ record { before = []; after = rs; whole = refl; at = ap start e }
  | inr s ↦ record {
    before = (s.2).before;
    after = (s.2).after;
    whole = (s.2).whole;
    at = ap start s.1 ∙ (s.2).at;
  }
]

module _ (b : List ℕ) where
  pub Chain-append_right :
      (p : ℕ) (xs ys : List Parsed) → Chain b p (xs ++ ys) → Chain b (chain_end p xs) ys
  Chain-append_right p [] ys c = c
  Chain-append_right p (x ∷ xs) ys c = Chain-append_right (p + x.size) xs ys c.1

  pub chain_end-le :
      (p : ℕ) (rs : List Parsed)
      → Chain b p rs
      → p ≤ length b
      → (p + length rs ≤ chain_end p rs) × (chain_end p rs ≤ length b)
  chain_end-le p [] c h = (omega arith, h)
  chain_end-le p (r ∷ rs) c h =
      let size = parse_bounds (drop p b) c.0 in
      let rest = chain_end-le (p + r.size) rs c.1 (omega (arith, length-drop p b)) in
      (omega arith, rest.1)

  -- The file cut off where its records end holds the same records.
  pub Chain-take :
      (p : ℕ) (rs : List Parsed)
      → Chain b p rs
      → p ≤ length b
      → Chain (take (chain_end p rs) b) p rs
  Chain-take p [] c h =
      parse_short (drop p (take p b)) (omega (arith, length-drop p (take p b), length-take p b))
  Chain-take p (r ∷ rs) c h =
      let size = parse_bounds (drop p b) c.0 in
      let rest = chain_end-le (p + r.size) rs c.1 (omega (arith, length-drop p b)) in
      let q = chain_end (p + r.size) rs in
      (
        rw (drop-take p q b (omega arith)) (parse-take (q - p) (drop p b) c.0 (omega arith)),
        Chain-take (p + r.size) rs c.1 (omega (arith, length-drop p b)),
      )

-- A replay ends where the records end.
pub pos-replay_all :
    (m : ℕ) (rs : List Parsed) (s : Replay) {s' : Replay}
    → replay_all m rs s ≡ some s'
    → s'.pos ≡ chain_end s.pos rs
pos-replay_all m [] s e = ground (arith, e)
pos-replay_all m (r ∷ rs) s {s'} e = elim (Option-cases (replay_record m r s)) [
  | inl q ↦ absurd (ground (arith, q, e))
  | inr q ↦
      let s₁ = record (q.0) { pos = (q.0).pos + r.size } in
      let rest : replay_all m rs s₁ ≡ some s' = ground (arith, q.1, e) in
      pos-replay_all m rs s₁ rest
      ∙ ap (λ p. chain_end (p + r.size) rs) (pos-replay_record m r s q.1)
]
