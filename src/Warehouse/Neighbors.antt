-- ===== src/Warehouse/Neighbors.antt =====
-- The expansion of a cell: `neighbors` of the warehouse, which every planner calls.
use multi_robot_fulfillment.Common.{
  ◌≤◌, ◌≡◌, ◌↔◌, Bool, true, false, not, List, [], ◌∷◌, arith, ◌∈◌, keep_if, mem-keep_if, ok, err,
  Error, length, Bool-cases, inl, inr, ◌⊎◌,
}
use multi_robot_fulfillment.Geometry.{Position, is_adjacent_to, directions, Direction}
use multi_robot_fulfillment.Grid
use multi_robot_fulfillment.Grid.Laws.{
  mem-traversable_steps_iff, neighbors-eq-ok, traversable-in_bounds,
}
use multi_robot_fulfillment.Warehouse.{
  Warehouse, in_bounds, require_in_bounds, is_traversable, is_blocked_by_dynamic, neighbors,
}

-- The cells that `neighbors` returns from a cell of the floor.
unfoldable pub open_steps : Warehouse → Position → List Position
open_steps w p =
    keep_if (λ c. not (is_blocked_by_dynamic w c)) (Grid.traversable_steps w.grid p directions)

pub neighbors-eq-open_steps :
    (w : Warehouse) (p : Position) → in_bounds w p ≡ true → neighbors w p ≡ ok (open_steps w p)
unfolding neighbors open_steps in_bounds require_in_bounds
neighbors-eq-open_steps w p h = ground (arith, neighbors-eq-ok w.grid p)

pub mem-open_steps :
    (w : Warehouse) (p q : Position)
    → (q ∈ open_steps w p) ↔ ((is_adjacent_to p q ≡ true) × (is_traversable w q ≡ true))
unfolding open_steps is_traversable
mem-open_steps w p q = ground (
  arith,
  mem-keep_if (λ c. not (is_blocked_by_dynamic w c)) (Grid.traversable_steps w.grid p directions) q,
  mem-traversable_steps_iff w.grid p q,
)

pub is_traversable-in_bounds :
    (w : Warehouse) (p : Position) → is_traversable w p ≡ true → in_bounds w p ≡ true
unfolding is_traversable in_bounds
is_traversable-in_bounds w p h = ground (arith, traversable-in_bounds w.grid p)

length-keep_if : {A : Type 0} (p : A → Bool) (xs : List A) → length (keep_if p xs) ≤ length xs
length-keep_if p [] = omega arith
length-keep_if p (x ∷ xs) = ground (arith, length-keep_if p xs)

length-traversable_steps :
    (g : Grid.Grid) (p : Position) (ds : List Direction)
    → length (Grid.traversable_steps g p ds) ≤ length ds
unfolding Grid.traversable_steps
length-traversable_steps g p [] = omega arith
length-traversable_steps g p (d ∷ ds) = ground (arith, length-traversable_steps g p ds)

pub length-open_steps : (w : Warehouse) (p : Position) → length (open_steps w p) ≤ 4
unfolding open_steps
length-open_steps w p = omega (
  arith,
  length-keep_if (λ c. not (is_blocked_by_dynamic w c))
      (Grid.traversable_steps w.grid p directions),
  length-traversable_steps w.grid p directions,
)

-- From a cell of the floor `neighbors` returns exactly the adjacent cells on which a robot may
-- stand; from any other cell it raises InvalidPositionError.
pub neighbors_exact :
    (w : Warehouse) (p : Position)
    → (in_bounds w p ≡ true)
        × ((cells : List Position) × (neighbors w p ≡ ok cells)
            × ((q : Position)
                → (q ∈ cells) ↔ ((is_adjacent_to p q ≡ true) × (is_traversable w q ≡ true))))
      ⊎ (in_bounds w p ≡ false) × (neighbors w p ≡ err Error.invalid_position)
unfolding neighbors require_in_bounds
neighbors_exact w p = elim (Bool-cases (in_bounds w p)) [
  | inl inside ↦
      inl (inside, (open_steps w p, neighbors-eq-open_steps w p inside, λ q. mem-open_steps w p q))
  | inr outside ↦ inr (outside, ground arith)
]
