-- ===== src/Coordinator.antt =====
-- The prioritized coordination of a fleet: robotics/coordination/coordinator.py and
-- coordination_result.py, with the counts of timed_path.py. Planning times and the number of questions
-- to the table are left out.
pub mod Clear
pub mod Rounds
pub mod Safe
pub mod Counts
mod Tests
use multi_robot_fulfillment.Common.{
  ℕ, ◌+◌, ◌*◌, Bool, true, false, not, ◌||◌, Option, none, some, List, [], ◌∷◌, ◌++◌, map, ◌==◌,
  nat_eq, nat_beq, ltb, if◌then◌else◌, any, keep_if, sorted, to_set, list_beq, length, first?,
  last?, Result, ok, err, Error,
}
use multi_robot_fulfillment.Common.Int.{ℤ, pos, pos_part, sub_ℕ, ◌+ℤ◌}
use multi_robot_fulfillment.Common.Dict.{Dict, lookup, has_key, insert, keys, values}
use multi_robot_fulfillment.Common.Fallible.{◌>>=◌}
use multi_robot_fulfillment.Geometry.{Position, position_eq}
use multi_robot_fulfillment.Warehouse.{Warehouse}
use multi_robot_fulfillment.Simulator
use multi_robot_fulfillment.Simulator.{Simulator}
use multi_robot_fulfillment.Coordination.{
  TimedStep, TimedPath, FailureReason, ReservationTable, empty_table, reserve_timed_path,
}
use multi_robot_fulfillment.SpaceTime
use multi_robot_fulfillment.SpaceTime.{SpaceTimePlanner}

-- `steps[0].timestep if steps else 0`, and the same of the last step.
abbrev pub time_or_zero : Option TimedStep → ℕ
time_or_zero none = 0
time_or_zero (some s) = s.timestep

unfoldable pub start_time : TimedPath → ℕ
start_time p = time_or_zero (first? p.steps)

unfoldable pub arrival_time : TimedPath → ℕ
arrival_time p = time_or_zero (last? p.steps)

-- `sum(1 for a, b in zip(steps, steps[1:]) if ...)`
abbrev pub count_moves : List TimedStep → ℕ
count_moves [] = 0
count_moves (a ∷ []) = 0
count_moves (a ∷ b ∷ ss) = (if a.position == b.position then 0 else 1) + count_moves (b ∷ ss)

abbrev pub count_waits : List TimedStep → ℕ
count_waits [] = 0
count_waits (a ∷ []) = 0
count_waits (a ∷ b ∷ ss) = (if a.position == b.position then 1 else 0) + count_waits (b ∷ ss)

unfoldable pub move_count : TimedPath → ℕ
move_count p = count_moves p.steps

unfoldable pub wait_count : TimedPath → ℕ
wait_count p = count_waits p.steps

unfoldable pub makespan : TimedPath → ℤ
makespan p = sub_ℕ (arrival_time p) (start_time p)

-- What is wrong with a request.
pub data Problem : Type 0 where
  no_robots ids_disagree not_a_permutation duplicate_robot : Problem
  shared_start : ℕ → ℕ → Problem

pub data Summary : Type 0 where
  malformed : Problem → Summary
  unplanned : List (ℕ × Option FailureReason) → Summary

pub record CoordinationResult : Type 0 where
  pub success : Bool
  pub timed_paths : Dict ℕ TimedPath
  pub robot_order : List ℕ
  pub planned_robot_count : ℕ
  pub failed_robot_ids : List ℕ
  pub total_move_steps : ℕ
  pub total_wait_steps : ℕ
  pub makespan : ℕ
  pub total_space_time_cost : ℤ
  pub horizon : ℕ
  pub failure_reason : Option Summary

abbrev pub sum : List ℕ → ℕ
sum [] = 0
sum (n ∷ ns) = n + sum ns

abbrev pub sum_ℤ : List ℤ → ℤ
sum_ℤ [] = pos 0
sum_ℤ (z ∷ zs) = z +ℤ sum_ℤ zs

-- `max(ns, default=0)`
abbrev pub maximum : List ℕ → ℕ
maximum [] = 0
maximum (n ∷ ns) = if ltb n (maximum ns) then maximum ns else n

-- `f"{rid}: {timed_paths[rid].failure_reason}"`
abbrev pub failure_parts : Dict ℕ TimedPath → List ℕ → Result (List (ℕ × Option FailureReason))
failure_parts paths [] = ok []
failure_parts paths (r ∷ rs) = elim (lookup r paths) [
  | none ↦ err Error.key_error
  | some p ↦ failure_parts paths rs >>= λ parts. ok ((r, p.failure_reason) ∷ parts)
]

abbrev pub is_empty : {A : Type 0} → List A → Bool
is_empty [] = true
is_empty (x ∷ xs) = false

unfoldable pub successful_paths : Dict ℕ TimedPath → List TimedPath
successful_paths paths = keep_if (λ p. p.success) (values paths)

abbrev pub totals :
    Dict ℕ TimedPath → List ℕ → List ℕ → ℕ → List (ℕ × Option FailureReason) → CoordinationResult
totals timed_paths robot_order failed_robot_ids horizon parts = record {
  success = is_empty failed_robot_ids;
  timed_paths = timed_paths;
  robot_order = robot_order;
  planned_robot_count = length (successful_paths timed_paths);
  failed_robot_ids = failed_robot_ids;
  total_move_steps = sum (map move_count (successful_paths timed_paths));
  total_wait_steps = sum (map wait_count (successful_paths timed_paths));
  makespan = maximum (map arrival_time (successful_paths timed_paths));
  total_space_time_cost = sum_ℤ (map makespan (successful_paths timed_paths));
  horizon = horizon;
  failure_reason = if is_empty failed_robot_ids then none else some (Summary.unplanned parts);
}

unfoldable pub summarise : Dict ℕ TimedPath → List ℕ → List ℕ → ℕ → Result CoordinationResult
summarise timed_paths robot_order failed_robot_ids horizon = do
  parts ← failure_parts timed_paths failed_robot_ids
  ok (totals timed_paths robot_order failed_robot_ids horizon parts)

abbrev pub by_id : ℕ → ℕ → Bool
by_id a b = ltb a b

abbrev pub same_keys : {V W : Type 0} → Dict ℕ V → Dict ℕ W → Bool
same_keys d f = not (any (λ k. not (has_key k f)) (keys d) || any (λ k. not (has_key k d)) (keys f))

-- The loop over the sorted robots, with the cells that were seen.
unfoldable pub shared_start_in : Dict ℕ Position → Dict Position ℕ → List ℕ → Option Problem
shared_start_in starts seen [] = none
shared_start_in starts seen (r ∷ rs) = elim (lookup r starts) [
  | none ↦ none
  | some cell ↦ elim (lookup cell seen) [
    | some other ↦ some (Problem.shared_start other r)
    | none ↦ shared_start_in starts (insert cell r seen) rs
  ]
]

unfoldable pub order_problem : Dict ℕ Position → Option (List ℕ) → Option Problem
order_problem starts none = none
order_problem starts (some order) =
    if not (list_beq (sorted by_id order) (sorted by_id (keys starts)))
    then some Problem.not_a_permutation
    else if not (nat_beq (length order) (length (to_set order)))
    then some Problem.duplicate_robot
    else none

unfoldable pub validate_request :
    Dict ℕ Position → Dict ℕ Position → Option (List ℕ) → Option Problem
validate_request starts goals priority_order =
    if is_empty starts
    then some Problem.no_robots
    else if not (same_keys starts goals)
    then some Problem.ids_disagree
    else elim (shared_start_in starts [] (sorted by_id (keys starts))) [
      | some problem ↦ some problem
      | none ↦ order_problem starts priority_order
    ]

-- `list(priority_order) if priority_order else sorted(starts)`
unfoldable pub planning_order : Dict ℕ Position → Option (List ℕ) → List ℕ
planning_order starts none = sorted by_id (keys starts)
planning_order starts (some []) = sorted by_id (keys starts)
planning_order starts (some (r ∷ rs)) = r ∷ rs

unfoldable pub default_horizon : Warehouse → ℕ → ℕ
default_horizon w fleet_size =
    2 * (pos_part w.grid.width + pos_part w.grid.height)
    + 4 * (if ltb 1 fleet_size then fleet_size else 1)

-- What the loop of `plan` changes.
pub record Pass : Type 0 where
  pub reservations : ReservationTable
  pub timed_paths : Dict ℕ TimedPath
  pub failed : List ℕ

abbrev pub or_key_error : {A : Type 0} → Option A → Result A
or_key_error none = err Error.key_error
or_key_error (some a) = ok a

-- The body of the loop after the planner returned.
unfoldable pub enter_path : ℕ → ℕ → Pass → TimedPath → Result Pass
enter_path horizon robot_id pass p =
    let paths = insert robot_id p pass.timed_paths in
    let (answer, table) = reserve_timed_path p horizon pass.reservations in
    if p.success
    then (answer >>= λ _. ok (record pass { reservations = table; timed_paths = paths }))
    else ok (record pass { timed_paths = paths; failed = pass.failed ++ (robot_id ∷ []) })

unfoldable pub plan_robot :
    SpaceTimePlanner → Dict ℕ Position → Dict ℕ Position → ℕ → ℕ → Pass → Result Pass
plan_robot planner starts goals horizon robot_id pass = do
  start ← or_key_error (lookup robot_id starts)
  goal ← or_key_error (lookup robot_id goals)
  timed_path ← SpaceTime.plan planner start goal pass.reservations robot_id 0 (some horizon)
  enter_path horizon robot_id pass timed_path

unfoldable pub plan_robots :
    SpaceTimePlanner → Dict ℕ Position → Dict ℕ Position → ℕ → List ℕ → Pass → Result Pass
plan_robots planner starts goals horizon [] pass = ok pass
plan_robots planner starts goals horizon (r ∷ rs) pass =
    plan_robot planner starts goals horizon r pass >>= plan_robots planner starts goals horizon rs

abbrev pub begin_pass : Pass
begin_pass = record { reservations = empty_table; timed_paths = []; failed = [] }

abbrev pub horizon_for : Warehouse → ℕ → Option ℕ → ℕ
horizon_for w fleet_size (some horizon) = horizon
horizon_for w fleet_size none = default_horizon w fleet_size

abbrev pub or_zero : Option ℕ → ℕ
or_zero none = 0
or_zero (some n) = n

abbrev pub refusal : Problem → List ℕ → Option ℕ → CoordinationResult
refusal problem order horizon = record {
  success = false;
  timed_paths = [];
  robot_order = order;
  planned_robot_count = 0;
  failed_robot_ids = [];
  total_move_steps = 0;
  total_wait_steps = 0;
  makespan = 0;
  total_space_time_cost = pos 0;
  horizon = or_zero horizon;
  failure_reason = some (Summary.malformed problem);
}

-- `plan` after the request was found in order.
unfoldable pub plan_fleet :
    SpaceTimePlanner → Dict ℕ Position → Dict ℕ Position → List ℕ → ℕ → Result CoordinationResult
plan_fleet planner starts goals order horizon = do
  pass ← plan_robots planner starts goals horizon order begin_pass
  summarise pass.timed_paths order pass.failed horizon

unfoldable pub plan :
    SpaceTimePlanner
    → Dict ℕ Position
    → Dict ℕ Position
    → Option (List ℕ)
    → Option ℕ
    → Result CoordinationResult
plan planner starts goals priority_order horizon =
    elim (validate_request starts goals priority_order) [
      | some problem ↦ ok (refusal problem (planning_order starts priority_order) horizon)
      | none ↦
          plan_fleet planner starts goals (planning_order starts priority_order)
            (horizon_for planner.warehouse (length starts) horizon)
    ]

-- `{robot_id: simulator.get_robot(robot_id).position for robot_id in goals}`, whose keys are all different
unfoldable pub starts_of : Simulator → List ℕ → Result (Dict ℕ Position)
starts_of s [] = ok []
starts_of s (r ∷ rs) = do
  robot ← Simulator.get_robot r s
  rest ← starts_of s rs
  ok ((r, robot.position) ∷ rest)

unfoldable pub plan_for :
    SpaceTimePlanner
    → Simulator
    → Dict ℕ Position
    → Option (List ℕ)
    → Option ℕ
    → Result CoordinationResult
plan_for planner s goals priority_order horizon = do
  starts ← starts_of s (keys goals)
  plan planner starts goals priority_order horizon
