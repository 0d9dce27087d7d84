-- ===== src/Execution/Tests.antt =====
-- Routes over a floor of two rows and three columns.
use multi_robot_fulfillment.Common.{
  ℕ, ◌≡◌, ◌≢◌, subst, refl, true, false, some, none, List, [], ◌∷◌, arith, nat_eq,
}
use multi_robot_fulfillment.Common.Dict.{lookup}
use multi_robot_fulfillment.Common.Int
use multi_robot_fulfillment.Common.Float
use multi_robot_fulfillment.Common.Int.{pos}
use multi_robot_fulfillment.Geometry.{Position}
use multi_robot_fulfillment.Warehouse
use multi_robot_fulfillment.Warehouse.{Warehouse}
use multi_robot_fulfillment.Warehouse.Blocking.{IsBacked}
use multi_robot_fulfillment.Robot.{Robot, RobotStatus}
use multi_robot_fulfillment.Simulator
use multi_robot_fulfillment.Simulator.{Simulator}
use multi_robot_fulfillment.Simulator.Moves.{IsSound}
use multi_robot_fulfillment.Simulator.Calls.{Call, after_calls, after_calls-IsSound}
use multi_robot_fulfillment.Execution.{Route}
use multi_robot_fulfillment.Grid
use multi_robot_fulfillment.Geometry
use multi_robot_fulfillment.Geometry.{is_adjacent_to}
use multi_robot_fulfillment.Robot
use multi_robot_fulfillment.Planning.{PathResult, Algorithm}
use multi_robot_fulfillment.Planning.Validation.{
  is_valid_path, find_path_problems, success_problems, cell_problems, move_problems,
}
use multi_robot_fulfillment.Execution.Valid.{Arrived, execute_arrives}

abbrev cell : ℕ → ℕ → Position
cell r c = record { row = pos r; col = pos c }

abbrev floor : Warehouse
floor = record {
  grid = record { width = pos 3; height = pos 2; blocked_cells = [] };
  locations = [];
  static_obstacles = [];
  dynamic_obstacles = [];
}

floor-IsBacked : IsBacked floor
unfolding Warehouse.is_blocked_by_static
floor-IsBacked = record {
  static_ids = tt;
  dynamic_ids = tt;
  apart = λ i h. refl;
  backed = λ p h. h;
  floored = λ p h. absurd (ground arith);
}

abbrev robot_on : ℕ → Position → Robot
robot_on name p = record {
  robot_id = name;
  position = p;
  battery_level = pos 40;
  payload_capacity = pos 10;
  current_payload = pos 0;
  status = RobotStatus.idle;
  assigned_task_id = none;
  distance_travelled = 0;
  steps_taken = 0;
  battery_drain_per_move = pos 3;
  last_error = false;
}

abbrev opening : List Call
opening = Call.add_robot (robot_on 1 (cell 0 0)) ∷ Call.add_robot (robot_on 2 (cell 0 2)) ∷ []

abbrev morning : Simulator
morning = after_calls opening (Simulator.new floor)

-- The third cell is taken, so the robot stops on the second.
abbrev taken : Route
taken = Route.cells (cell 0 0 ∷ cell 0 1 ∷ cell 0 2 ∷ [])

abbrev alone : List Call
alone = Call.add_robot (robot_on 1 (cell 0 0)) ∷ []

abbrev quiet : Simulator
quiet = record { warehouse = floor; robots = (1, robot_on 1 (cell 0 0)) ∷ []; tasks = [] }

quiet-IsSound : IsSound quiet
unfolding Simulator.new Simulator.add_robot Robot.post_init Warehouse.in_bounds
    Warehouse.is_traversable Warehouse.is_blocked_by_dynamic Grid.in_bounds Grid.is_traversable
    Simulator.first_at Float.whole Float.doubled
quiet-IsSound =
    let same : after_calls alone (Simulator.new floor) ≡ quiet = refl in
    subst IsSound same (after_calls-IsSound alone floor floor-IsBacked)

abbrev straight : PathResult
straight = record {
  algorithm = Algorithm.astar;
  start = cell 0 0;
  goal = cell 0 2;
  success = true;
  path = cell 0 0 ∷ cell 0 1 ∷ cell 0 2 ∷ [];
  total_cost = some (pos 2);
  nodes_expanded = 3;
  failure_reason = none;
}

no_other : (j : ℕ) (other : Robot) → j ≢ 1 → lookup j quiet.robots ≡ some other → ⊥
no_other j other differ l = ground arith

straight-valid : is_valid_path straight floor ≡ true
unfolding is_valid_path find_path_problems success_problems cell_problems move_problems
    is_adjacent_to Warehouse.in_bounds Warehouse.is_traversable Warehouse.is_blocked_by_dynamic
    Grid.in_bounds Grid.is_traversable Geometry.position_beq
straight-valid = refl

execute_arrives_example : Arrived 1 quiet straight
unfolding Warehouse.is_blocked_by_static Int.◌-ℤ◌ Float.◌-f◌ Float.round Float.round_digits
execute_arrives_example =
    execute_arrives 1 quiet straight (robot_on 1 (cell 0 0)) 2 quiet-IsSound refl
      (λ h. ground (arith, h)) refl straight-valid refl refl (omega arith, (omega arith, tt))
      (λ q on. refl) (λ q j other on differ l. absurd (no_other j other differ l))
