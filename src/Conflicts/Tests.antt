-- ===== src/Conflicts/Tests.antt =====
-- The check of a plan for two robots that cross, and of a path without steps.
use multi_robot_fulfillment.Common.{ℕ, ◌≡◌, refl, true, none, some, [], ◌∷◌, ok, err, Error}
use multi_robot_fulfillment.Common.{sorted, insert_sorted}
use multi_robot_fulfillment.Common.Dict.{Dict, values}
use multi_robot_fulfillment.Common.Int.{pos}
use multi_robot_fulfillment.Geometry
use multi_robot_fulfillment.Geometry.{Position, manhattan_distance}
use multi_robot_fulfillment.Warehouse.{Warehouse}
use multi_robot_fulfillment.Coordination.{TimedPath}
use multi_robot_fulfillment.SpaceTime.{SpaceTimePlanner}
use multi_robot_fulfillment.Coordinator.{
  CoordinationResult, shared_start_in, order_problem, validate_request, plan,
}
use multi_robot_fulfillment.Conflicts.{find_coordination_problems, is_conflict_free}
use multi_robot_fulfillment.Conflicts.Passes.{plan-passes}
use multi_robot_fulfillment.Conflicts.Raises.{find_coordination_problems_raises}

abbrev cell : ℕ → ℕ → Position
cell r c = record { row = pos r; col = pos c }

abbrev floor : Warehouse
floor = record {
  grid = record { width = pos 3; height = pos 2; blocked_cells = [] };
  locations = [];
  static_obstacles = [];
  dynamic_obstacles = [];
}

abbrev planner : SpaceTimePlanner
planner = record { warehouse = floor; heuristic = manhattan_distance }

abbrev starts : Dict ℕ Position
starts = (1, cell 0 0) ∷ (2, cell 0 2) ∷ []

abbrev goals : Dict ℕ Position
goals = (1, cell 0 2) ∷ (2, cell 0 0) ∷ []

in_order : validate_request starts goals none ≡ none
unfolding validate_request shared_start_in order_problem sorted insert_sorted Geometry.position_beq
in_order = refl

plan-passes_example :
    (result : CoordinationResult) × (plan planner starts goals none none ≡ ok result)
    × (find_coordination_problems (values result.timed_paths) floor (some starts) true ≡ ok [])
    × (is_conflict_free (values result.timed_paths) floor (some starts) ≡ ok true)
plan-passes_example = plan-passes planner starts goals none none in_order

abbrev stepless : TimedPath
stepless = record { robot_id = 1; steps = []; success = true; failure_reason = none }

find_coordination_problems_raises_example :
    find_coordination_problems (stepless ∷ []) floor none true ≡ err Error.index_error
find_coordination_problems_raises_example =
    find_coordination_problems_raises stepless floor none true refl refl
