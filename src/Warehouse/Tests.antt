-- ===== src/Warehouse/Tests.antt =====
-- A warehouse of two rows and two columns under calls of its methods.
use multi_robot_fulfillment.Common.{
  ℕ, ◌≡◌, ◌↔◌, ◌⊎◌, ◌∈◌, refl, true, false, List, [], ◌∷◌, ok, err, Error, arith,
}
use multi_robot_fulfillment.Common.Int.{pos}
use multi_robot_fulfillment.Geometry.{Position, is_adjacent_to}
use multi_robot_fulfillment.Grid
use multi_robot_fulfillment.Warehouse.{
  Warehouse, LocationType, new, in_bounds, neighbors, is_traversable, is_blocked_by_static,
  is_blocked_by_dynamic, add_static_obstacle, remove_static_obstacle,
}
use multi_robot_fulfillment.Warehouse.Blocking.{IsBacked}
use multi_robot_fulfillment.Warehouse.Calls.{
  Call, after_calls, after_calls-IsBacked, remove_static_obstacle_uncovers,
}
use multi_robot_fulfillment.Warehouse.Neighbors.{neighbors_exact}

abbrev cell : ℕ → ℕ → Position
cell r c = record { row = pos r; col = pos c }

abbrev empty_floor : Warehouse
empty_floor = record {
  grid = record { width = pos 2; height = pos 2; blocked_cells = [] };
  locations = [];
  static_obstacles = [];
  dynamic_obstacles = [];
}

new_floor : new (pos 2) (pos 2) ≡ ok empty_floor
unfolding new Grid.new
new_floor = refl

abbrev busy_day : List Call
busy_day =
    Call.mark_location (cell 0 0) LocationType.charging
    ∷ Call.add_static_obstacle 1 (cell 0 1)
    ∷ Call.add_static_obstacle 1 (cell 1 1)
    ∷ Call.add_dynamic_obstacle 2 (cell 1 1)
    ∷ Call.remove_static_obstacle 1
    ∷ Call.remove_dynamic_obstacle 3
    ∷ []

after_calls-IsBacked_example : IsBacked (after_calls busy_day empty_floor)
after_calls-IsBacked_example = after_calls-IsBacked (pos 2) (pos 2) busy_day empty_floor new_floor

neighbors_exact_example :
    (in_bounds empty_floor (cell 0 0) ≡ true)
      × ((cells : List Position) × (neighbors empty_floor (cell 0 0) ≡ ok cells)
          × ((q : Position)
              → (q ∈ cells)
                ↔ ((is_adjacent_to (cell 0 0) q ≡ true) × (is_traversable empty_floor q ≡ true))))
    ⊎ (in_bounds empty_floor (cell 0 0) ≡ false)
      × (neighbors empty_floor (cell 0 0) ≡ err Error.invalid_position)
neighbors_exact_example = neighbors_exact empty_floor (cell 0 0)

remove_static_obstacle_uncovers_example :
    let w₁ = (add_static_obstacle 1 (cell 0 1) empty_floor).1 in
    let w₂ = (add_static_obstacle 2 (cell 0 1) w₁).1 in
    let w₃ = (remove_static_obstacle 1 w₂).1 in
    (is_blocked_by_static w₃ (cell 0 1) ≡ true) × (is_traversable w₃ (cell 0 1) ≡ true)
unfolding in_bounds Grid.in_bounds is_blocked_by_dynamic
remove_static_obstacle_uncovers_example =
    remove_static_obstacle_uncovers empty_floor 1 2 (cell 0 1) (λ e. ground arith) refl refl refl
      refl refl refl refl
