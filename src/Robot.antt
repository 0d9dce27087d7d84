-- ===== src/Robot.antt =====
-- The robot of robotics/robots/robot.py and its statuses of robot_state.py. Charge and weight are
-- floats, with the rounded sums and differences of Common/Float, names are numbers with 0 for the empty
-- string, and the text of `last_error` is reduced to whether there is one.
pub mod Battery
pub mod Bookkeeping
mod Tests
use multi_robot_fulfillment.Common.{
  ℕ, ◌+◌, Bool, true, false, not, ◌&&◌, ◌||◌, Option, none, some, if◌then◌else◌, Result, ok, err,
  Error, Action, ◌>>=◌, ◌>>◌, pure, gets, raise_if, modify, nat_beq,
}
use multi_robot_fulfillment.Common.Int.{ℤ, pos, ltb_ℤ, leb_ℤ, min_ℤ, max_ℤ}
use multi_robot_fulfillment.Common.Float.{◌+f◌, ◌-f◌, whole}
use multi_robot_fulfillment.Geometry.{Position, is_adjacent_to, move_cost}

pub data RobotStatus : Type 0 where
  idle assigned moving picking dropping charging blocked offline : RobotStatus

abbrev pub min_battery : ℤ
min_battery = pos 0

abbrev pub max_battery : ℤ
max_battery = whole 100

pub record Robot : Type 0 where
  pub robot_id : ℕ
  pub position : Position
  pub battery_level : ℤ
  pub payload_capacity : ℤ
  pub current_payload : ℤ
  pub status : RobotStatus
  pub assigned_task_id : Option ℕ
  pub distance_travelled : ℕ
  pub steps_taken : ℕ
  pub battery_drain_per_move : ℤ
  pub last_error : Bool

-- The checks of `__post_init__`.
unfoldable pub post_init : Robot → Result (Unit {0})
post_init r =
    if nat_beq r.robot_id 0
    then err Error.value_error
    else if ltb_ℤ r.payload_capacity (pos 0)
    then err Error.value_error
    else if not (leb_ℤ (pos 0) r.current_payload && leb_ℤ r.current_payload r.payload_capacity)
    then err Error.value_error
    else if ltb_ℤ r.battery_drain_per_move (pos 0)
    then err Error.value_error
    else if not (leb_ℤ min_battery r.battery_level && leb_ℤ r.battery_level max_battery)
    then err Error.value_error
    else ok tt

abbrev pub in_available_statuses : RobotStatus → Bool
in_available_statuses RobotStatus.idle = true
in_available_statuses _ = false

abbrev pub is_none {ℓ} : {A : Type ℓ} → Option A → Bool
is_none none = true
is_none (some _) = false

unfoldable pub is_available : Robot → Bool
is_available r = in_available_statuses r.status && is_none r.assigned_task_id

abbrev pub remaining_capacity : Robot → ℤ
remaining_capacity r = r.payload_capacity -f r.current_payload

unfoldable pub has_battery_for_move : Robot → Bool
has_battery_for_move r = leb_ℤ r.battery_drain_per_move r.battery_level

unfoldable pub can_carry : ℤ → Robot → Bool
can_carry weight r = leb_ℤ weight (remaining_capacity r)

abbrev pub drain_battery : ℤ → Robot → Robot
drain_battery amount r = record r { battery_level = max_ℤ min_battery (r.battery_level -f amount) }

unfoldable pub move_to : Position → Action Robot (Unit {0})
move_to destination r =
    if not (is_adjacent_to r.position destination)
    then (err Error.invalid_move, r)
    else if not (has_battery_for_move r)
    then (err Error.invalid_move, r)
    else let moved = drain_battery r.battery_drain_per_move (record r {
      position = destination;
      steps_taken = r.steps_taken + 1;
      distance_travelled = r.distance_travelled + move_cost;
    }) in
      (ok tt, record moved { status = RobotStatus.moving; last_error = false })

unfoldable pub recharge : ℤ → Action Robot ℤ
recharge amount = do
  raise_if (ltb_ℤ amount (pos 0)) Error.value_error
  before ← gets (λ r. r.battery_level)
  modify (λ r. record r { battery_level = min_ℤ max_battery (r.battery_level +f amount) })
  gets (λ r. r.battery_level -f before)

unfoldable pub load : ℤ → Action Robot (Unit {0})
load weight = do
  raise_if (ltb_ℤ weight (pos 0)) Error.value_error
  fits ← gets (can_carry weight)
  raise_if (not fits) Error.simulation_error
  modify (λ r. record r { current_payload = r.current_payload +f weight })

unfoldable pub unload : Action Robot ℤ
unload = do
  unloaded ← gets (λ r. r.current_payload)
  modify (λ r. record r { current_payload = pos 0 })
  pure unloaded

unfoldable pub set_status : RobotStatus → Robot → Robot
set_status status r = record r { status = status }

unfoldable pub assign_task : ℕ → Action Robot (Unit {0})
assign_task task_id r =
    if not (is_available r)
    then (err Error.simulation_error, r)
    else (ok tt, record r { assigned_task_id = some task_id; status = RobotStatus.assigned })

unfoldable pub clear_task : Robot → Robot
clear_task r = record r { assigned_task_id = none; status = RobotStatus.idle }
