-- ===== src/Hash/Enhanced/Sorting.antt =====
-- The insertion sort in `Dispersion`.
use bloom_filter_jyy_0098_go.Base.{
  refl, ℕ, zero, suc, ◌+◌, ◌-◌, ◌<◌, ◌≤◌, ◌≡◌, ◌≢◌, List, [], ◌∷◌, length, get_or, set, arith,
  if◌then◌else◌, ltb, ◌==◌, ap, length-set, get_or-set_self, get_or-set_ne, Bool-cases, inl, inr,
  subst,
}
use native.Mathlib.Decide.{ℕ_discrete}
use bloom_filter_jyy_0098_go.Hash.Enhanced.{shift, sort, sort_loop}

-- How often v occurs.
unfoldable pub count : ℕ → List ℕ → ℕ
count v [] = 0
count v (x ∷ xs) = (if x == v then 1 else 0) + count v xs

-- The first n places are in order, but for place j, which is not looked at.
IsSortedBut : ℕ → ℕ → List ℕ → Type 0
IsSortedBut j n ps = (a b : ℕ) → a ≤ b → b < n → a ≢ j → b ≢ j → get_or ps a 0 ≤ get_or ps b 0

-- The first n places are in order.
abbrev pub IsSorted : ℕ → List ℕ → Type 0
IsSorted n ps = (a b : ℕ) → a ≤ b → b < n → get_or ps a 0 ≤ get_or ps b 0

get_or-set :
    (ps : List ℕ) (i j v : ℕ)
    → i < length ps
    → get_or (set ps i v) j 0 ≡ (if i == j then v else get_or ps j 0)
get_or-set ps i j v h = elim (ℕ_discrete i j) [
  | yes e ↦
      subst (λ j. get_or (set ps i v) j 0 ≡ (if i == j then v else get_or ps j 0)) e
        (ground (arith, get_or-set_self ps i v 0 h))
  | no ne ↦ ground (arith, get_or-set_ne ps i j v 0 ne)
]

count-set :
    (v : ℕ) (ps : List ℕ) (i x : ℕ)
    → i < length ps
    → count v (set ps i x) + (if get_or ps i 0 == v then 1 else 0)
      ≡ count v ps + (if x == v then 1 else 0)
unfolding count
count-set v [] i x h = absurd (omega arith)
count-set v (p ∷ ps) zero x h = omega arith
count-set v (p ∷ ps) (suc i) x h = omega (arith, count-set v ps i x (omega arith))

length-shift : (ps : List ℕ) (key j : ℕ) → length (shift ps key j) ≡ length ps
unfolding shift
length-shift ps key zero = length-set ps 0 key
length-shift ps key (suc j) = ground (
  arith,
  length-shift (set ps (suc j) (get_or ps j 0)) key j,
  length-set ps (suc j) (get_or ps j 0),
  length-set ps (suc j) key,
)

-- `shift` writes `key` over what stood at j.
count-shift :
    (v : ℕ) (ps : List ℕ) (key j : ℕ)
    → j < length ps
    → count v (shift ps key j) + (if get_or ps j 0 == v then 1 else 0)
      ≡ count v ps + (if key == v then 1 else 0)
unfolding shift
count-shift v ps key zero h = count-set v ps 0 key h
count-shift v ps key (suc j) h =
    let moved = set ps (suc j) (get_or ps j 0) in
    let len : j < length moved = omega (arith, length-set ps (suc j) (get_or ps j 0)) in
    let same : (if get_or moved j 0 == v then suc zero else zero)
        ≡ (if get_or ps j 0 == v then suc zero else zero) =
      ap (λ x. if x == v then suc zero else zero)
        (get_or-set_ne ps (suc j) j (get_or ps j 0) 0 (λ q. omega (arith, q))) in
    elim (Bool-cases (ltb key (get_or ps j 0))) [
      | inl e ↦ rw e (
          omega
            (arith, count-shift v moved key j len, count-set v ps (suc j) (get_or ps j 0) h, same))
      | inr e ↦ rw e (count-set v ps (suc j) key h)
    ]

-- `shift` puts `key` in its place among those before j, where those after j are no smaller.
shift-IsSorted :
    (n : ℕ) (ps : List ℕ) (key j : ℕ)
    → j < n
    → n ≤ length ps
    → IsSortedBut j n ps
    → ((b : ℕ) → j < b → b < n → key ≤ get_or ps b 0)
    → IsSorted n (shift ps key j)
unfolding shift IsSortedBut
shift-IsSorted n ps key zero h len s above = λ a b le lt. ground (
  arith,
  s a b le lt,
  above b,
  get_or-set ps 0 a key (omega arith),
  get_or-set ps 0 b key (omega arith),
)
shift-IsSorted n ps key (suc j) h len s above = elim (Bool-cases (ltb key (get_or ps j 0))) [
  | inl e ↦
      let moved = set ps (suc j) (get_or ps j 0) in
      let at : (a : ℕ) → get_or moved a 0 ≡ (if suc j == a then get_or ps j 0 else get_or ps a 0) =
        λ a. get_or-set ps (suc j) a (get_or ps j 0) (omega arith) in
      rw e (
        shift-IsSorted n moved key j (omega arith)
          (omega (arith, length-set ps (suc j) (get_or ps j 0)))
          (λ a b le lt na nb. grind (arith, at a, at b, s a j, s j b, s a b, e))
          (λ b gt lt. ground (arith, at b, above b, e)))
  | inr e ↦ rw e (λ a b le lt. grind (
    arith,
    get_or-set ps (suc j) a key (omega arith),
    get_or-set ps (suc j) b key (omega arith),
    s a j,
    s a b,
    above b,
    e,
  ))
]

sort_loop-IsSorted :
    (left i : ℕ) (ps : List ℕ) (v : ℕ)
    → i + left ≡ length ps
    → IsSorted i ps
    → (length (sort_loop left i ps) ≡ length ps)
      × IsSorted (length ps) (sort_loop left i ps)
      × (count v (sort_loop left i ps) ≡ count v ps)
unfolding sort_loop IsSortedBut
sort_loop-IsSorted zero i ps v e s = (refl, λ a b le lt. s a b le (omega arith), refl)
sort_loop-IsSorted (suc left) i ps v e s =
    let ps' = shift ps (get_or ps i 0) i in
    let same = length-shift ps (get_or ps i 0) i in
    let next : IsSorted (i + 1) ps' =
      shift-IsSorted (i + 1) ps (get_or ps i 0) i (omega arith) (omega arith)
        (λ a b le lt na nb. s a b le (omega arith)) (λ b gt lt. absurd (omega arith)) in
    let rest = sort_loop-IsSorted left (i + 1) ps' v (omega (arith, same)) next in
    (
      omega (arith, rest.0, same),
      λ a b le lt. rest.1 a b le (omega (arith, same)),
      omega (arith, rest.2, count-shift v ps (get_or ps i 0) i (omega arith)),
    )

-- The insertion sort returns a list that is in order and in which each number occurs as often as
-- before.
pub sort-IsSorted :
    (ps : List ℕ) (v : ℕ)
    → (length (sort ps) ≡ length ps)
      × IsSorted (length ps) (sort ps)
      × (count v (sort ps) ≡ count v ps)
unfolding sort sort_loop
sort-IsSorted [] v = (refl, λ a b le lt. absurd (omega arith), refl)
sort-IsSorted (p ∷ ps) v =
    let e : suc (length ps) - 1 ≡ length ps = omega arith in
    rw e (sort_loop-IsSorted (length ps) 1 (p ∷ ps) v (omega arith) (λ a b le lt. ground arith))
