-- ===== src/Engine/SealedClose/Ranking.antt =====
-- What Redis documents of ZREVRANGE: all members with their scores, from the highest score down.
use live_auction_system.Prelude.{ℕ, ◌≤◌, ◌≡◌, ◌≢◌, [], ◌∷◌, none, some, arith}
use live_auction_system.Prelude.Assoc.{Assoc, lookup}

-- No score of the list exceeds the bound, each is a bound for those after it, and no member comes
-- twice.
abbrev pub Descending : ℕ → Assoc ℕ → Type 0
Descending bound [] = Unit {0}
Descending bound ((u, v) ∷ z) = (v ≤ bound) × (lookup u z ≡ none) × Descending v z

abbrev pub IsRanking : Assoc ℕ → Assoc ℕ → Type 0
IsRanking z bids = ((u : ℕ) → lookup u z ≡ lookup u bids) × ((bound : ℕ) × Descending bound z)

Descending-lookup :
    (bound : ℕ) (z : Assoc ℕ) (u v : ℕ) → Descending bound z → lookup u z ≡ some v → v ≤ bound
unfolding lookup
Descending-lookup bound [] u v d h = ground (arith, h)
Descending-lookup bound ((w, x) ∷ z) u v d h = ground (arith, d.0, h, Descending-lookup x z u v d.2)

-- The first of a ranking has a highest bid.
pub ranked_first :
    (winner top : ℕ) (rest bids : Assoc ℕ)
    → IsRanking ((winner, top) ∷ rest) bids
    → (lookup winner bids ≡ some top) × ((u v : ℕ) → lookup u bids ≡ some v → v ≤ top)
unfolding lookup
ranked_first winner top rest bids (same, (bound, d)) = (
  ground (arith, same winner),
  λ u v h. ground (arith, same u, h, Descending-lookup top rest u v d.2),
)

-- The second has a highest bid among the others.
pub ranked_second :
    (winner top second amount : ℕ) (rest bids : Assoc ℕ)
    → IsRanking ((winner, top) ∷ (second, amount) ∷ rest) bids
    → (lookup second bids ≡ some amount)
      × (second ≢ winner)
      × (amount ≤ top)
      × ((u v : ℕ) → u ≢ winner → lookup u bids ≡ some v → v ≤ amount)
unfolding lookup
ranked_second winner top second amount rest bids (same, (bound, d)) = (
  ground (arith, same second, d.1),
  ground (arith, d.1),
  d.2.0,
  λ u v other h. ground (arith, same u, other, h, Descending-lookup amount rest u v d.2.2),
)

-- Where a ranking has one bidder nobody else has bid.
pub ranked_alone :
    (winner top : ℕ) (bids : Assoc ℕ)
    → IsRanking ((winner, top) ∷ []) bids
    → (u : ℕ) → u ≢ winner
    → lookup u bids ≡ none
unfolding lookup
ranked_alone winner top bids (same, _) u other = ground (arith, same u, other)
