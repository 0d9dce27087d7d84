-- ===== src/Planning.antt =====
-- The single-robot planners: robotics/planning/path_result.py, the request check of validation.py,
-- and the functions `plan` of astar.py and dijkstra.py. Planning times, which nothing reads, are left
-- out.
pub mod Validation
pub mod Cells
pub mod Answers
pub mod Validated
pub mod Sound
pub mod Shortest
pub mod Agreement
mod Tests
use multi_robot_fulfillment.Common.{
  ℕ, ◌+◌, ◌*◌, Bool, true, false, not, Option, none, some, List, [], ◌∷◌, ◌==◌, if◌then◌else◌,
  Result, ok, err, Error, length,
}
use multi_robot_fulfillment.Common.Int.{ℤ, pos, sub_ℕ}
use multi_robot_fulfillment.Common.Dict.{Dict, lookup}
use multi_robot_fulfillment.Common.Fallible.{◌>>=◌}
use multi_robot_fulfillment.Geometry.{
  Position, position_eq, move_cost, Heuristic, manhattan_distance,
}
use multi_robot_fulfillment.Grid
use multi_robot_fulfillment.Warehouse
use multi_robot_fulfillment.Warehouse.{Warehouse}
use multi_robot_fulfillment.Search.{
  Query, Search, Ending, reached, exhausted, loop, begin, reconstruct_path,
}

pub data Algorithm : Type 0 where
  dijkstra astar : Algorithm

pub data Reason : Type 0 where
  start_blocked goal_blocked unreachable : Reason

pub record PathResult : Type 0 where
  pub algorithm : Algorithm
  pub start : Position
  pub goal : Position
  pub success : Bool
  pub path : List Position
  pub total_cost : Option ℤ
  pub nodes_expanded : ℕ
  pub failure_reason : Option Reason

-- `(len(path) - 1) * MOVE_COST`
abbrev pub path_cost : List Position → ℤ
path_cost path = sub_ℕ (length path * move_cost) move_cost

unfoldable pub found : Algorithm → Position → Position → List Position → ℕ → PathResult
found algorithm start goal path expanded = record {
  algorithm = algorithm;
  start = start;
  goal = goal;
  success = true;
  path = path;
  total_cost = some (path_cost path);
  nodes_expanded = expanded;
  failure_reason = none;
}

unfoldable pub not_found : Algorithm → Position → Position → Reason → ℕ → PathResult
not_found algorithm start goal reason expanded = record {
  algorithm = algorithm;
  start = start;
  goal = goal;
  success = false;
  path = [];
  total_cost = none;
  nodes_expanded = expanded;
  failure_reason = some reason;
}

unfoldable pub check_planning_request : Position → Position → Warehouse → Result (Option Reason)
check_planning_request start goal w =
    if not (Warehouse.in_bounds w start)
    then err Error.invalid_position
    else if not (Warehouse.in_bounds w goal)
    then err Error.invalid_position
    else if not (Warehouse.is_traversable w start)
    then ok (some Reason.start_blocked)
    else if not (Warehouse.is_traversable w goal)
    then ok (some Reason.goal_blocked)
    else ok none

-- `current_cost = g_score[current]` and `tentative_g = current_cost + MOVE_COST`
abbrev pub tentative_cost : Dict Position ℕ → Position → Result ℕ
tentative_cost best current = elim (lookup current best) [
  | none ↦ err Error.key_error
  | some g ↦ ok (g + move_cost)
]

-- What a planner's loop is run with: its queue order, and the cells of the warehouse.
abbrev pub cell_query : (ℕ → Position → ℕ × ℕ) → Position → Warehouse → Query Position
cell_query order goal w = record {
  order = order;
  next_cost = tentative_cost;
  skips_finalized = true;
  successors = Warehouse.neighbors w;
  is_goal = λ p. p == goal;
}

-- Each cell is expanded once and adds four entries at most.
unfoldable pub loop_fuel : Warehouse → ℕ
loop_fuel w = 1 + 4 * length (Grid.all_positions w.grid)

-- The cost of a cell bounds the number of links that lead back from it.
abbrev pub cost_or_zero : Dict Position ℕ → Position → ℕ
cost_or_zero best p = elim (lookup p best) [ none ↦ 0 | some g ↦ g ]

unfoldable pub report : Algorithm → Position → Position → Ending Position → Result PathResult
report algorithm start goal (reached at st) = do
  path ← reconstruct_path (cost_or_zero st.best_cost at) st.came_from start at
  ok (found algorithm start goal path st.nodes_expanded)
report algorithm start goal (exhausted st) =
    ok (not_found algorithm start goal Reason.unreachable st.nodes_expanded)

-- The body of both functions `plan`, which differ in the order of the queue.
unfoldable pub plan_by :
    Algorithm → (ℕ → Position → ℕ × ℕ) → Position → Position → Warehouse → Result PathResult
plan_by algorithm order start goal w = do
  rejection ← check_planning_request start goal w
  elim rejection [
    | some reason ↦ ok (not_found algorithm start goal reason 0)
    | none ↦
        if start == goal
        then ok (found algorithm start goal (start ∷ []) 0)
        else loop (cell_query order goal w) (loop_fuel w) (begin (cell_query order goal w) start)
          >>= report algorithm start goal
  ]

-- A* ranks by `f = g + h` and breaks ties by `h`.
abbrev pub astar_order : Heuristic → Position → ℕ → Position → ℕ × ℕ
astar_order heuristic goal g p = (g + heuristic p goal, heuristic p goal)

-- Dijkstra ranks by the cost alone; a constant stands for the tie-break that it has not.
abbrev pub dijkstra_order : ℕ → Position → ℕ × ℕ
dijkstra_order g p = (g, 0)

unfoldable pub plan_astar : Heuristic → Position → Position → Warehouse → Result PathResult
plan_astar heuristic start goal w =
    plan_by Algorithm.astar (astar_order heuristic goal) start goal w

unfoldable pub plan_dijkstra : Position → Position → Warehouse → Result PathResult
plan_dijkstra start goal w = plan_by Algorithm.dijkstra dijkstra_order start goal w
