-- ===== src/Filter/Sets.antt =====
-- Sets of bit positions as predicates, and finite lists of positions read against them.
use bloom_filter_jyy_0098_go.Base.{
  ℕ, ◌≡◌, refl, List, [], ◌∷◌, arith, Bool, true, false, ◌&&◌, ◌||◌, ◌==◌, ==_refl,
}

unfoldable pub member : ℕ → List ℕ → Bool
member j [] = false
member j (i ∷ is) = (i == j) || member j is

-- Every position of the list is on in the set.
unfoldable pub covers : (ℕ → Bool) → List ℕ → Bool
covers on [] = true
covers on (i ∷ is) = on i && covers on is

-- A set that holds the members of a list covers it.
pub covers-member :
    (on : ℕ → Bool) (is : List ℕ)
    → ((j : ℕ) → member j is ≡ true → on j ≡ true)
    → covers on is ≡ true
unfolding member covers
covers-member on [] h = refl
covers-member on (i ∷ is) h =
    ground (arith, h i, ==_refl i, covers-member on is (λ j p. h j (ground arith)))

pub covers_mono :
    (on on' : ℕ → Bool) (is : List ℕ)
    → ((j : ℕ) → on j ≡ true → on' j ≡ true)
    → covers on is ≡ true
    → covers on' is ≡ true
unfolding covers
covers_mono on on' [] h c = refl
covers_mono on on' (i ∷ is) h c = ground (arith, h i, covers_mono on on' is h)

pub covers-and :
    (on on' both : ℕ → Bool) (is : List ℕ)
    → ((j : ℕ) → both j ≡ (on j && on' j))
    → covers both is ≡ (covers on is && covers on' is)
unfolding covers
covers-and on on' both [] h = refl
covers-and on on' both (i ∷ is) h = ground (arith, h i, covers-and on on' both is h)
