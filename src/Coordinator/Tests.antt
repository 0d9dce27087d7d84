-- ===== src/Coordinator/Tests.antt =====
-- Two robots that cross on a floor of two rows.
use multi_robot_fulfillment.Common.{ℕ, ◌≡◌, refl, none, some, [], ◌∷◌, sorted, insert_sorted, ok}
use multi_robot_fulfillment.Common.Dict.{Dict}
use multi_robot_fulfillment.Common.Int.{pos}
use multi_robot_fulfillment.Geometry
use multi_robot_fulfillment.Geometry.{Position, manhattan_distance}
use multi_robot_fulfillment.Warehouse.{Warehouse}
use multi_robot_fulfillment.SpaceTime.{SpaceTimePlanner}
use multi_robot_fulfillment.Coordinator.{
  CoordinationResult, shared_start_in, order_problem, validate_request, plan,
}
use multi_robot_fulfillment.Coordinator.Safe.{IsSafe, plan-IsSafe}
use multi_robot_fulfillment.Coordinator.Counts.{IsCounted, plan-IsCounted}

abbrev cell : ℕ → ℕ → Position
cell r c = record { row = pos r; col = pos c }

abbrev floor : Warehouse
floor = record {
  grid = record { width = pos 3; height = pos 2; blocked_cells = cell 1 2 ∷ [] };
  locations = [];
  static_obstacles = [];
  dynamic_obstacles = [];
}

abbrev planner : SpaceTimePlanner
planner = record { warehouse = floor; heuristic = manhattan_distance }

abbrev starts : Dict ℕ Position
starts = (1, cell 0 0) ∷ (2, cell 0 2) ∷ []

abbrev goals : Dict ℕ Position
goals = (2, cell 0 0) ∷ (1, cell 0 2) ∷ []

in_order : validate_request starts goals (some (2 ∷ 1 ∷ [])) ≡ none
unfolding validate_request shared_start_in order_problem sorted insert_sorted Geometry.position_beq
in_order = refl

plan-IsSafe_example :
    (result : CoordinationResult) × (plan planner starts goals (some (2 ∷ 1 ∷ [])) (some 9)
      ≡ ok result)
    × IsSafe planner starts goals 9 result
plan-IsSafe_example = plan-IsSafe planner starts goals (some (2 ∷ 1 ∷ [])) (some 9) in_order

plan-IsCounted_example :
    (result : CoordinationResult) × (plan planner starts goals (some (2 ∷ 1 ∷ [])) (some 9)
      ≡ ok result)
    × IsCounted 9 result
plan-IsCounted_example = plan-IsCounted planner starts goals (some (2 ∷ 1 ∷ [])) (some 9) in_order
