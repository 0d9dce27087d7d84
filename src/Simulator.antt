-- ===== src/Simulator.antt =====
-- The simulator of robotics/simulation/simulator.py: the registries of robots and tasks over one
-- warehouse. A reason is a value in place of a message.
pub mod Fleet
pub mod Moves
pub mod Duty
pub mod Standing
pub mod Releases
pub mod Calls
pub mod Queue
mod Tests
use multi_robot_fulfillment.Common.{
  ℕ, ◌+◌, ◌-◌, ◌*◌, Bool, true, false, not, ◌&&◌, ◌||◌, Option, none, some, List, [], ◌∷◌,
  if◌then◌else◌, Result, ok, err, Error, Action, ◌>>=◌, ◌>>◌, pure, gets, reads, raise, raise_if,
  modify, nat_eq, nat_beq, ltb, ◌==◌, keep_if, sorted, map,
}
use multi_robot_fulfillment.Common.Int.{ℤ}
use multi_robot_fulfillment.Common.Dict.{Dict, lookup, insert, erase, has_key, values}
use multi_robot_fulfillment.Geometry.{Position, position_eq, is_adjacent_to}
use multi_robot_fulfillment.Warehouse
use multi_robot_fulfillment.Warehouse.{Warehouse, Obstacle}
use multi_robot_fulfillment.Robot
use multi_robot_fulfillment.Robot.{
  Robot, RobotStatus, is_available, can_carry, has_battery_for_move,
}
use multi_robot_fulfillment.Task
use multi_robot_fulfillment.Task.{Task, TaskPriority, TaskStatus, is_open, status_eq}

pub record Simulator : Type 0 where
  pub warehouse : Warehouse
  pub robots : Dict ℕ Robot
  pub tasks : Dict ℕ Task

unfoldable pub new : Warehouse → Simulator
new w = record { warehouse = w; robots = []; tasks = [] }

abbrev pub found_or : {A : Type 0} → Option A → Result A
found_or none = err Error.simulation_error
found_or (some a) = ok a

unfoldable pub get_robot : ℕ → Simulator → Result Robot
get_robot robot_id s = found_or (lookup robot_id s.robots)

unfoldable pub get_task : ℕ → Simulator → Result Task
get_task task_id s = found_or (lookup task_id s.tasks)

-- `for robot in self._robots.values()`
unfoldable pub first_at : Position → Dict ℕ Robot → Option Robot
first_at p [] = none
first_at p ((i, r) ∷ rs) = if r.position == p then some r else first_at p rs

abbrev pub robot_at : Position → Simulator → Option Robot
robot_at p s = first_at p s.robots

abbrev pub occupied : Position → Simulator → Bool
occupied p s = elim (robot_at p s) [ none ↦ false | some r ↦ true ]

-- What a method of a robot or a task leaves in the registry.
abbrev pub put_robot : ℕ → Robot → Simulator → Simulator
put_robot robot_id r s = record s { robots = insert robot_id r s.robots }

abbrev pub put_task : ℕ → Task → Simulator → Simulator
put_task task_id t s = record s { tasks = insert task_id t s.tasks }

abbrev pub robot_call : {A : Type 0} → ℕ → Robot → Action Robot A → Action Simulator A
robot_call robot_id r method s = ((method r).0, put_robot robot_id (method r).1 s)

abbrev pub task_call : {A : Type 0} → ℕ → Task → Action Task A → Action Simulator A
task_call task_id t method s = ((method t).0, put_task task_id (method t).1 s)

unfoldable pub add_robot : Robot → Action Simulator (Unit {0})
add_robot r s =
    if has_key r.robot_id s.robots
    then (err Error.simulation_error, s)
    else if not (Warehouse.in_bounds s.warehouse r.position)
    then (err Error.invalid_position, s)
    else if not (Warehouse.is_traversable s.warehouse r.position)
    then (err Error.invalid_position, s)
    else if occupied r.position s
    then (err Error.simulation_error, s)
    else (ok tt, put_robot r.robot_id r s)

-- The task of a robot that leaves: failed when it runs, else back in the queue. `reason` stands for
-- the text that names the robot.
unfoldable pub release_task : ℕ → ℕ → Action Simulator (Unit {0})
release_task task_id reason s = elim (lookup task_id s.tasks) [
  | none ↦ (ok tt, s)
  | some t ↦
      if not (is_open t)
      then (ok tt, s)
      else if t.status == TaskStatus.in_progress
      then task_call task_id t (Task.fail reason) s
      else task_call task_id t Task.unassign s
]

unfoldable pub release_robot : ℕ → Robot → Action Simulator (Unit {0})
release_robot robot_id r s = elim r.assigned_task_id [
  | none ↦ (ok tt, s)
  | some task_id ↦
      (do release_task task_id robot_id; modify (put_robot robot_id (Robot.clear_task r))) s
]

unfoldable pub remove_robot : ℕ → Action Simulator (Unit {0})
remove_robot robot_id = do
  r ← reads (get_robot robot_id)
  release_robot robot_id r
  modify (λ s. record s { robots = erase robot_id s.robots })

pub data MoveReason : Type 0 where
  offline outside not_adjacent static_obstacle dynamic_obstacle already_occupied no_battery :
      MoveReason

unfoldable pub move_reason : Robot → Position → Simulator → Option MoveReason
move_reason r destination s =
    if elim r.status [ RobotStatus.offline ↦ true | _ ↦ false ]
    then some MoveReason.offline
    else if not (Warehouse.in_bounds s.warehouse destination)
    then some MoveReason.outside
    else if not (is_adjacent_to r.position destination)
    then some MoveReason.not_adjacent
    else if Warehouse.is_blocked_by_static s.warehouse destination
    then some MoveReason.static_obstacle
    else if Warehouse.is_blocked_by_dynamic s.warehouse destination
    then some MoveReason.dynamic_obstacle
    else if occupied destination s
    then some MoveReason.already_occupied
    else if not (has_battery_for_move r)
    then some MoveReason.no_battery
    else none

unfoldable pub validate_move : ℕ → Position → Simulator → Result (Option MoveReason)
validate_move robot_id destination s = elim (get_robot robot_id s) [
  | err e ↦ err e
  | ok r ↦ ok (move_reason r destination s)
]

unfoldable pub move_robot : ℕ → Position → Action Simulator (Unit {0})
move_robot robot_id destination = do
  r ← reads (get_robot robot_id)
  reason ← reads (validate_move robot_id destination)
  elim reason [
    | some _ ↦ do
      modify (put_robot robot_id (record r { last_error = true }))
      raise Error.invalid_move
    | none ↦ robot_call robot_id r (Robot.move_to destination)
  ]

unfoldable pub charge_robot : ℕ → ℤ → Action Simulator ℤ
charge_robot robot_id amount = do
  r ← reads (get_robot robot_id)
  at_station ← reads (λ s. Warehouse.is_charging_station s.warehouse r.position)
  raise_if (not at_station) Error.simulation_error
  robot_call robot_id (Robot.set_status RobotStatus.charging r) (Robot.recharge amount)

unfoldable pub endpoint_error : Warehouse → Position → Bool
endpoint_error w p = not (Warehouse.in_bounds w p) || Warehouse.is_blocked_by_static w p

unfoldable pub add_task : Task → Action Simulator (Unit {0})
add_task t s =
    if has_key t.task_id s.tasks
    then (err Error.simulation_error, s)
    else if endpoint_error s.warehouse t.pickup_location
    then (err Error.invalid_position, s)
    else if endpoint_error s.warehouse t.dropoff_location
    then (err Error.invalid_position, s)
    else (ok tt, put_task t.task_id t s)

unfoldable pub assign_task_manually : ℕ → ℕ → Action Simulator (Unit {0})
assign_task_manually task_id robot_id = do
  t ← reads (get_task task_id)
  r ← reads (get_robot robot_id)
  raise_if (not (t.status == TaskStatus.pending)) Error.simulation_error
  raise_if (not (is_available r)) Error.simulation_error
  raise_if (not (can_carry t.payload_weight r)) Error.simulation_error
  robot_call robot_id r (Robot.assign_task t.task_id)
  task_call task_id t (Task.assign_to r.robot_id)

abbrev pub priority_number : TaskPriority → ℕ
priority_number TaskPriority.low = 1
priority_number TaskPriority.normal = 2
priority_number TaskPriority.high = 3
priority_number TaskPriority.urgent = 4

-- The order of the keys `(-priority, task_id)`.
abbrev pub more_urgent : Task → Task → Bool
more_urgent a b =
    ltb (priority_number b.priority) (priority_number a.priority)
    || nat_beq (priority_number a.priority) (priority_number b.priority) && ltb a.task_id b.task_id

unfoldable pub pending_tasks : Simulator → List Task
pending_tasks s =
    sorted more_urgent (keep_if (λ t. t.status == TaskStatus.pending) (values s.tasks))

abbrev pub warehouse_call : {A : Type 0} → Action Warehouse A → Action Simulator A
warehouse_call method s = ((method s.warehouse).0, record s { warehouse = (method s.warehouse).1 })

unfoldable pub add_dynamic_obstacle : ℕ → Position → Action Simulator Obstacle
add_dynamic_obstacle obstacle_id p s =
    if occupied p s
    then (err Error.simulation_error, s)
    else warehouse_call (Warehouse.add_dynamic_obstacle obstacle_id p) s

unfoldable pub remove_dynamic_obstacle : ℕ → Action Simulator Obstacle
remove_dynamic_obstacle obstacle_id = warehouse_call (Warehouse.remove_dynamic_obstacle obstacle_id)
