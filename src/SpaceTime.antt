-- ===== src/SpaceTime.antt =====
-- The planner of robotics/coordination/space_time_planner.py: A* over states of a cell and a
-- timestep, around the reservations of other robots. The table is asked for answers alone: its count of
-- questions, a statistic, is not carried through a search.
pub mod Steps
pub mod Graph
pub mod Walks
pub mod Hold
pub mod Answers
pub mod Plans
pub mod Reservable
mod Tests
use multi_robot_fulfillment.Common.{
  ℕ, zero, suc, ◌+◌, ◌-◌, ◌*◌, Bool, false, not, ◌&&◌, Option, none, some, List, [], ◌∷◌, ◌++◌, map,
  ◌==◌, leb, ltb, if◌then◌else◌, Result, ok, err, length,
}
use multi_robot_fulfillment.Common.Int.{pos_part}
use multi_robot_fulfillment.Common.Fallible.{◌>>=◌}
use multi_robot_fulfillment.Geometry.{Position, position_eq, Heuristic, manhattan_distance}
use multi_robot_fulfillment.Grid
use multi_robot_fulfillment.Warehouse
use multi_robot_fulfillment.Warehouse.{Warehouse}
use multi_robot_fulfillment.Search.{
  Query, Ending, reached, exhausted, loop, begin, reconstruct_path,
}
use multi_robot_fulfillment.Planning.{plan_astar}
use multi_robot_fulfillment.Coordination.{
  TimedStep, TimedPath, FailureReason, found, failed, VertexKey, vertex_eq, ReservationTable,
  held_by_other, vertex_reserver, is_vertex_free, is_move_allowed,
}

-- `SpaceTimePlanner(warehouse, heuristic)`
pub record SpaceTimePlanner : Type 0 where
  pub warehouse : Warehouse
  pub heuristic : Heuristic

-- The answer of the table to a question, which never raises.
abbrev pub answer : Result Bool → Bool
answer (ok b) = b
answer (err e) = false

abbrev pub reserver : Result (Option ℕ) → Option ℕ
reserver (ok r) = r
reserver (err e) = none

-- `for t in range(horizon, start_time - 1, -1)`: the last of so many timesteps comes first.
unfoldable pub scan_back : Position → ReservationTable → ℕ → ℕ → ℕ → ℕ
scan_back goal table robot_id start_time zero = start_time
scan_back goal table robot_id start_time (suc count) =
    let rest = scan_back goal table robot_id start_time count in
    if held_by_other robot_id (reserver (vertex_reserver goal (start_time + count) table).0)
    then start_time + count + 1
    else rest

unfoldable pub earliest_goal_hold : Position → ReservationTable → ℕ → ℕ → ℕ → ℕ
earliest_goal_hold goal table robot_id start_time horizon =
    scan_back goal table robot_id start_time (horizon + 1 - start_time)

-- What a search is run with: the planner's fields and the arguments of `_search`.
pub record Trip : Type 0 where
  pub warehouse : Warehouse
  pub heuristic : Heuristic
  pub goal : Position
  pub reservations : ReservationTable
  pub robot_id : ℕ
  pub start_time : ℕ
  pub horizon : ℕ
  pub earliest_hold : ℕ

abbrev pub state_at : Position → ℕ → VertexKey
state_at cell timestep = record { cell = cell; timestep = timestep }

-- WAIT
unfoldable pub wait_steps : Trip → VertexKey → List VertexKey
wait_steps trip s =
    if answer (is_vertex_free s.cell (s.timestep + 1) trip.robot_id trip.reservations).0
      && Warehouse.is_traversable trip.warehouse s.cell
    then state_at s.cell (s.timestep + 1) ∷ []
    else []

-- MOVE
unfoldable pub move_steps : Trip → VertexKey → List Position → List VertexKey
move_steps trip s [] = []
move_steps trip s (nb ∷ nbs) =
    let rest = move_steps trip s nbs in
    if answer (is_move_allowed s.cell nb s.timestep trip.robot_id trip.reservations).0
    then state_at nb (s.timestep + 1) ∷ rest
    else rest

unfoldable pub timed_successors : Trip → VertexKey → Result (List VertexKey)
timed_successors trip s = if leb trip.horizon s.timestep then ok [] else (do
  cells ← Warehouse.neighbors trip.warehouse s.cell
  ok (wait_steps trip s ++ move_steps trip s cells))

-- `g_next = (t + 1) - start_time`; the set of closed states is not asked about neighbours.
abbrev pub timed_query : Trip → Query VertexKey
timed_query trip = record {
  order = λ g s. (g + trip.heuristic s.cell trip.goal, trip.heuristic s.cell trip.goal);
  next_cost = λ best s. ok (s.timestep + 1 - trip.start_time);
  skips_finalized = false;
  successors = timed_successors trip;
  is_goal = λ s. s.cell == trip.goal && leb trip.earliest_hold s.timestep;
}

-- The states of so many timesteps. Each is expanded once and adds five entries at most.
unfoldable pub timed_states : List Position → ℕ → ℕ → List VertexKey
timed_states cells timestep zero = []
timed_states cells timestep (suc count) =
    map (λ cell. state_at cell timestep) cells ++ timed_states cells (suc timestep) count

abbrev pub universe : Trip → List VertexKey
universe trip =
    timed_states (Grid.all_positions trip.warehouse.grid) trip.start_time
      (trip.horizon + 1 - trip.start_time)

unfoldable pub search_fuel : Trip → ℕ
search_fuel trip = 1 + 5 * length (universe trip)

abbrev pub step_of : VertexKey → TimedStep
step_of s = record { position = s.cell; timestep = s.timestep }

-- `_reconstruct`, or the failure after the loop. There is one link for each timestep.
unfoldable pub timed_report : Trip → Position → Ending VertexKey → Result TimedPath
timed_report trip start (reached at st) = do
  chain ←
      reconstruct_path (at.timestep - trip.start_time) st.came_from (state_at start trip.start_time)
        at
  ok (found trip.robot_id (map step_of chain))
timed_report trip start (exhausted st) = ok (failed trip.robot_id FailureReason.horizon_reached)

unfoldable pub search_trip : Trip → Position → Result TimedPath
search_trip trip start =
    loop (timed_query trip) (search_fuel trip)
      (begin (timed_query trip) (state_at start trip.start_time))
    >>= timed_report trip start

-- The search of `plan`, unless the goal is held through the horizon.
unfoldable pub schedule_trip : Trip → Position → Result TimedPath
schedule_trip trip start =
    if ltb trip.horizon trip.earliest_hold
    then ok (failed trip.robot_id FailureReason.goal_held)
    else search_trip trip start

abbrev pub trip_for : SpaceTimePlanner → Position → ReservationTable → ℕ → ℕ → ℕ → Trip
trip_for planner goal table robot_id start_time horizon = record {
  warehouse = planner.warehouse;
  heuristic = planner.heuristic;
  goal = goal;
  reservations = table;
  robot_id = robot_id;
  start_time = start_time;
  horizon = horizon;
  earliest_hold = earliest_goal_hold goal table robot_id start_time horizon;
}

unfoldable pub plan_until :
    SpaceTimePlanner → Position → Position → ReservationTable → ℕ → ℕ → ℕ → Result TimedPath
plan_until planner start goal table robot_id start_time horizon =
    if not (Warehouse.in_bounds planner.warehouse start)
    then ok (failed robot_id FailureReason.start_out_of_bounds)
    else if not (Warehouse.in_bounds planner.warehouse goal)
    then ok (failed robot_id FailureReason.goal_out_of_bounds)
    else if not (Warehouse.is_traversable planner.warehouse start)
    then ok (failed robot_id FailureReason.start_obstructed)
    else if not (Warehouse.is_traversable planner.warehouse goal)
    then ok (failed robot_id FailureReason.goal_obstructed)
    else if not (answer (is_vertex_free start start_time robot_id table).0)
    then ok (failed robot_id FailureReason.start_reserved)
    else (do
      spatial ← plan_astar manhattan_distance start goal planner.warehouse
      if not spatial.success
          then ok (failed robot_id FailureReason.spatially_unreachable)
          else schedule_trip (trip_for planner goal table robot_id start_time horizon) start)

-- The default of a horizon that is not given.
abbrev pub horizon_or_default : Warehouse → Option ℕ → ℕ
horizon_or_default w (some horizon) = horizon
horizon_or_default w none = 4 * (pos_part w.grid.width + pos_part w.grid.height)

unfoldable pub plan :
    SpaceTimePlanner → Position → Position → ReservationTable → ℕ → ℕ → Option ℕ → Result TimedPath
plan planner start goal table robot_id start_time horizon =
    plan_until planner start goal table robot_id start_time
      (horizon_or_default planner.warehouse horizon)
