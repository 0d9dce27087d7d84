-- ===== src/Execution.antt =====
-- Driving a robot along a route: robotics/execution/route_executor.py and execution_result.py, over
-- `move_robot` of the simulator. The robot is read from the registry again after each move, where the
-- code holds the object. A reason is a value in place of a message.
pub mod Walks
pub mod Runs
pub mod Refusals
pub mod Outcome
pub mod Arrivals
pub mod Valid
mod Tests
use multi_robot_fulfillment.Common.{
  ℕ, suc, ◌+◌, ◌-◌, Bool, true, false, not, Option, none, some, List, [], ◌∷◌, ◌++◌, ◌==◌,
  if◌then◌else◌, Result, ok, err, Error, Action, length, to_set, nat_beq,
}
use multi_robot_fulfillment.Common.Int.{ℤ}
use multi_robot_fulfillment.Common.Float.{◌-f◌}
use multi_robot_fulfillment.Geometry.{Position, position_eq, is_adjacent_to}
use multi_robot_fulfillment.Planning.{PathResult, Reason}
use multi_robot_fulfillment.Robot.{Robot, RobotStatus}
use multi_robot_fulfillment.Simulator
use multi_robot_fulfillment.Simulator.{Simulator, get_robot}

pub data Route : Type 0 where
  planned : PathResult → Route
  cells : List Position → Route

pub data StopReason : Type 0 where
  no_route : Option Reason → StopReason
  empty_route repeated_cell robot_offline wrong_start : StopReason
  not_walkable : ℕ → StopReason
  stopped : ℕ → Position → StopReason

pub record ExecutionResult : Type 0 where
  pub success : Bool
  pub robot_id : ℕ
  pub start : Position
  pub goal : Position
  pub final_position : Position
  pub planned_steps : ℕ
  pub executed_steps : ℕ
  pub distance_travelled : ℕ
  pub battery_before : ℤ
  pub battery_after : ℤ
  pub completed_path : List Position
  pub failure_reason : Option StopReason

unfoldable pub battery_consumed : ExecutionResult → ℤ
battery_consumed result = result.battery_before -f result.battery_after

unfoldable pub reached_goal : ExecutionResult → Bool
reached_goal result = result.final_position == result.goal

-- The pair `(path, None)` or `(None, reason)`.
pub data Resolved : Type 0 where
  ready : List Position → Resolved
  rejection : StopReason → Resolved

-- The first index whose cell is not adjacent to the next.
unfoldable pub first_gap : ℕ → List Position → Option ℕ
first_gap index [] = none
first_gap index (cell ∷ []) = none
first_gap index (cell ∷ following ∷ rest) =
    let later = first_gap (suc index) (following ∷ rest) in
    if is_adjacent_to cell following then later else some index

unfoldable pub check_cells : List Position → Resolved
check_cells [] = Resolved.rejection StopReason.empty_route
check_cells (cell ∷ rest) = elim (first_gap 0 (cell ∷ rest)) [
  | some index ↦ Resolved.rejection (StopReason.not_walkable index)
  | none ↦
      if not (nat_beq (length (to_set (cell ∷ rest))) (length (cell ∷ rest)))
      then Resolved.rejection StopReason.repeated_cell
      else Resolved.ready (cell ∷ rest)
]

unfoldable pub resolve_path : Route → Resolved
resolve_path (Route.planned r) =
    if not r.success
    then Resolved.rejection (StopReason.no_route r.failure_reason)
    else check_cells r.path
resolve_path (Route.cells path) = check_cells path

unfoldable pub preflight : Robot → Position → Option StopReason
preflight robot first =
    if elim robot.status [ RobotStatus.offline ↦ true | _ ↦ false ]
    then some StopReason.robot_offline
    else if not (first == robot.position)
    then some StopReason.wrong_start
    else none

-- The locals of the loop, and whether a step was refused.
pub record Progress : Type 0 where
  pub executed_steps : ℕ
  pub completed_path : List Position
  pub refused : Bool

abbrev pub from_start : Position → Progress
from_start start = record { executed_steps = 0; completed_path = start ∷ []; refused = false }

abbrev pub one_more : Position → Progress → Progress
one_more cell progress = record progress {
  executed_steps = progress.executed_steps + 1;
  completed_path = progress.completed_path ++ (cell ∷ []);
}

-- What comes after a call of `move_robot`: only InvalidMoveError is caught.
unfoldable pub after_move :
    ℕ
    → Progress
    → (Progress → Action Simulator Progress)
    → Result (Unit {0}) × Simulator
    → Result Progress × Simulator
after_move robot_id progress continue (ok _, s) = elim (get_robot robot_id s) [
  | ok robot ↦ continue (one_more robot.position progress) s
  | err e ↦ (err e, s)
]
after_move robot_id progress continue (err Error.invalid_move, s) =
    (ok (record progress { refused = true }), s)
after_move robot_id progress continue (err e, s) = (err e, s)

-- `for next_cell in path[1:]`
unfoldable pub walk : ℕ → List Position → Progress → Action Simulator Progress
walk robot_id [] progress s = (ok progress, s)
walk robot_id (next_cell ∷ rest) progress s =
    after_move robot_id progress (walk robot_id rest) (Simulator.move_robot robot_id next_cell s)

-- `path[-1]` of a path that begins with `first`.
unfoldable pub last_cell : Position → List Position → Position
last_cell first [] = first
last_cell first (cell ∷ rest) = last_cell cell rest

-- A result before any step: the robot is where it was.
unfoldable pub not_started : Robot → ℕ → Position → Position → ℕ → StopReason → ExecutionResult
not_started robot robot_id start goal planned_steps reason = record {
  success = false;
  robot_id = robot_id;
  start = start;
  goal = goal;
  final_position = robot.position;
  planned_steps = planned_steps;
  executed_steps = 0;
  distance_travelled = 0;
  battery_before = robot.battery_level;
  battery_after = robot.battery_level;
  completed_path = robot.position ∷ [];
  failure_reason = some reason;
}

-- The result after the loop, from the robot as it was and as it is. The odometer never goes back.
unfoldable pub finished : Robot → Robot → ℕ → Position → Position → ℕ → Progress → ExecutionResult
finished before after robot_id start goal planned_steps progress = record {
  success = not progress.refused;
  robot_id = robot_id;
  start = start;
  goal = goal;
  final_position = if progress.refused then after.position else goal;
  planned_steps = planned_steps;
  executed_steps = progress.executed_steps;
  distance_travelled = after.distance_travelled - before.distance_travelled;
  battery_before = before.battery_level;
  battery_after = after.battery_level;
  completed_path = progress.completed_path;
  failure_reason =
      if progress.refused
      then some (StopReason.stopped progress.executed_steps after.position)
      else none;
}

unfoldable pub drive : Robot → ℕ → Position → List Position → Action Simulator ExecutionResult
drive robot robot_id start rest s =
    let (walked, s') = walk robot_id rest (from_start start) s in
    elim walked [
      | err e ↦ (err e, s')
      | ok progress ↦ elim (get_robot robot_id s') [
        | err e ↦ (err e, s')
        | ok after ↦ (
          ok (finished robot after robot_id start (last_cell start rest) (length rest) progress),
          s',
        )
      ]
    ]

unfoldable pub execute_path : Robot → ℕ → List Position → Action Simulator ExecutionResult
execute_path robot robot_id [] s = (err Error.index_error, s)
execute_path robot robot_id (start ∷ rest) s = elim (preflight robot start) [
  | some reason ↦
      (ok (not_started robot robot_id start (last_cell start rest) (length rest) reason), s)
  | none ↦
      if nat_beq (length rest) 0
      then (ok (finished robot robot robot_id start (last_cell start rest) 0 (from_start start)), s)
      else drive robot robot_id start rest s
]

unfoldable pub execute : ℕ → Route → Action Simulator ExecutionResult
execute robot_id route s = elim (get_robot robot_id s) [
  | err e ↦ (err e, s)
  | ok robot ↦ elim (resolve_path route) [
    | Resolved.rejection reason ↦
        (ok (not_started robot robot_id robot.position robot.position 0 reason), s)
    | Resolved.ready path ↦ execute_path robot robot_id path s
  ]
]
