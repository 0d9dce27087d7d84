-- ===== src/Planning/Tests.antt =====
-- Runs of the planners on a floor of two rows and three columns with one shelf.
use multi_robot_fulfillment.Common.{
  none, some, ℕ, ◌≡◌, ◌⊎◌, refl, true, false, [], ◌∷◌, ok, err, Error,
}
use multi_robot_fulfillment.Common.Int
use multi_robot_fulfillment.Common.Int.{pos}
use multi_robot_fulfillment.Geometry
use multi_robot_fulfillment.Geometry.{
  Position, is_adjacent_to, Heuristic, manhattan_distance, zero_heuristic,
}
use multi_robot_fulfillment.Grid
use multi_robot_fulfillment.Search
use multi_robot_fulfillment.Warehouse
use multi_robot_fulfillment.Warehouse.{Warehouse}
use multi_robot_fulfillment.Planning.{
  Algorithm, PathResult, plan_by, plan_astar, plan_dijkstra, dijkstra_order, report, loop_fuel,
  check_planning_request, found,
}
use multi_robot_fulfillment.Planning.Validation.{
  find_path_problems, success_problems, cell_problems, move_problems, assert_valid_path,
}
use multi_robot_fulfillment.Planning.Sound.{find_path_problems_sound}
use multi_robot_fulfillment.Planning.Cells.{IsPath, manhattan_distance-IsConsistent}
use multi_robot_fulfillment.Planning.Shortest.{
  IsShortest, IsUnreachable, plan_astar-IsShortest, plan_dijkstra-IsShortest, plan_astar_raises,
}
use multi_robot_fulfillment.Planning.Validated.{plan_by_passes}
use multi_robot_fulfillment.Planning.Agreement.{plan_astar-plan_dijkstra}

abbrev cell : ℕ → ℕ → Position
cell r c = record { row = pos r; col = pos c }

abbrev floor : Warehouse
floor = record {
  grid = record { width = pos 3; height = pos 2; blocked_cells = cell 0 1 ∷ [] };
  locations = [];
  static_obstacles = [];
  dynamic_obstacles = [];
}

around_the_shelf :
    plan_astar manhattan_distance (cell 0 0) (cell 0 2) floor
    ≡ ok (
        found Algorithm.astar
          (cell 0 0)
          (cell 0 2)
          (cell 0 0 ∷ cell 1 0 ∷ cell 1 1 ∷ cell 1 2 ∷ cell 0 2 ∷ [])
          5)
unfolding plan_astar plan_by report loop_fuel check_planning_request found manhattan_distance
    Search.loop Search.relax Search.relax_all Search.expand Search.heappop Search.reconstruct_path
    Search.walk_back Warehouse.in_bounds Warehouse.is_traversable Warehouse.is_blocked_by_dynamic
    Warehouse.neighbors Warehouse.require_in_bounds Grid.in_bounds Grid.is_traversable
    Grid.all_positions Grid.positions_in Grid.range_from Grid.row_positions Grid.neighbors
    Grid.require_in_bounds Grid.traversable_steps Geometry.position_beq Geometry.apply_to
    Geometry.manhattan_distance_to Int.◌+ℤ◌
around_the_shelf = refl

plan_astar-IsShortest_example :
    (r : PathResult) × (plan_astar manhattan_distance (cell 0 0) (cell 0 2) floor ≡ ok r)
    × (IsShortest floor (cell 0 0) (cell 0 2) r ⊎ IsUnreachable floor (cell 0 0) (cell 0 2) r)
unfolding Warehouse.in_bounds Grid.in_bounds
plan_astar-IsShortest_example =
    plan_astar-IsShortest manhattan_distance (cell 0 0) (cell 0 2) floor
      manhattan_distance-IsConsistent refl refl

plan_dijkstra-IsShortest_example :
    (r : PathResult) × (plan_dijkstra (cell 0 0) (cell 0 2) floor ≡ ok r)
    × (IsShortest floor (cell 0 0) (cell 0 2) r ⊎ IsUnreachable floor (cell 0 0) (cell 0 2) r)
unfolding Warehouse.in_bounds Grid.in_bounds
plan_dijkstra-IsShortest_example = plan_dijkstra-IsShortest (cell 0 0) (cell 0 2) floor refl refl

plan_astar_raises_example :
    ((plan_astar manhattan_distance (cell 0 0) (cell 2 0) floor ≡ err Error.invalid_position)
      × ((Warehouse.in_bounds floor (cell 0 0) ≡ false)
          ⊎ (Warehouse.in_bounds floor (cell 2 0) ≡ false)))
    ⊎ ((r : PathResult) × (plan_astar manhattan_distance (cell 0 0) (cell 2 0) floor ≡ ok r)
        × (Warehouse.in_bounds floor (cell 0 0) ≡ true)
        × (Warehouse.in_bounds floor (cell 2 0) ≡ true))
plan_astar_raises_example = plan_astar_raises manhattan_distance (cell 0 0) (cell 2 0) floor

plan_by_passes_example :
    (r : PathResult) × (plan_by Algorithm.dijkstra dijkstra_order (cell 0 0) (cell 0 2) floor
      ≡ ok r)
    × (find_path_problems r floor ≡ [])
    × (assert_valid_path r floor ≡ ok tt)
unfolding Warehouse.in_bounds Grid.in_bounds
plan_by_passes_example =
    plan_by_passes Algorithm.dijkstra dijkstra_order (cell 0 0) (cell 0 2) floor refl refl

plan_astar-plan_dijkstra_example :
    (r s : PathResult) × (plan_astar manhattan_distance (cell 0 0) (cell 0 2) floor ≡ ok r)
    × (plan_dijkstra (cell 0 0) (cell 0 2) floor ≡ ok s)
    × (r.success ≡ s.success)
    × (r.total_cost ≡ s.total_cost)
unfolding Warehouse.in_bounds Grid.in_bounds
plan_astar-plan_dijkstra_example =
    plan_astar-plan_dijkstra manhattan_distance (cell 0 0) (cell 0 2) floor
      manhattan_distance-IsConsistent refl refl

abbrev detour : PathResult
detour = record {
  algorithm = Algorithm.astar;
  start = cell 0 0;
  goal = cell 1 1;
  success = true;
  path = cell 0 0 ∷ cell 1 0 ∷ cell 1 1 ∷ [];
  total_cost = some (pos 2);
  nodes_expanded = 3;
  failure_reason = none;
}

find_path_problems_sound_example :
    (n : ℕ) × IsPath floor (cell 0 0) (cell 1 1) n (cell 0 0 ∷ cell 1 0 ∷ cell 1 1 ∷ [])
    × (some (pos 2) ≡ some (pos n))
unfolding find_path_problems success_problems cell_problems move_problems is_adjacent_to
    Warehouse.in_bounds Warehouse.is_traversable Warehouse.is_blocked_by_dynamic Grid.in_bounds
    Grid.is_traversable Geometry.position_beq
find_path_problems_sound_example = find_path_problems_sound detour floor refl refl
