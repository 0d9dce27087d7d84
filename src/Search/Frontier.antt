-- ===== src/Search/Frontier.antt =====
-- The priority queue: `heappop` takes an entry of least rank and keeps the others.
use multi_robot_fulfillment.Common.{
  ◌≤◌, ◌≡◌, refl, ◌⊎◌, ◌↔◌, inl, List, [], ◌∷◌, arith, ◌∈◌, length,
}
use multi_robot_fulfillment.Search.{Entry, heappop}

module _ {S : Type 0} where
  pub mem-heappop :
      (x : Entry S) (xs : List (Entry S)) (y : Entry S)
      → (y ∈ x ∷ xs) ↔ ((y ≡ (heappop x xs).0) ⊎ (y ∈ (heappop x xs).1))
  unfolding heappop
  mem-heappop x [] y = ground arith
  mem-heappop x (z ∷ zs) y = ground (arith, mem-heappop z zs y, mem-heappop x zs y)

  pub heappop_least :
      (x : Entry S) (xs : List (Entry S)) (y : Entry S)
      → y ∈ x ∷ xs
      → (heappop x xs).0.rank ≤ y.rank
  unfolding heappop
  heappop_least x [] y m = ground arith
  heappop_least x (z ∷ zs) y m = ground (
    arith,
    heappop_least z zs y,
    heappop_least x zs y,
    heappop_least z zs z (inl refl),
    heappop_least x zs x (inl refl),
  )

  pub length-heappop : (x : Entry S) (xs : List (Entry S)) → length (heappop x xs).1 ≡ length xs
  unfolding heappop
  length-heappop x [] = refl
  length-heappop x (z ∷ zs) = ground (arith, length-heappop z zs, length-heappop x zs)
