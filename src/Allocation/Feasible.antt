-- ===== src/Allocation/Feasible.antt =====
-- The pairs that an allocator may choose: robotics/allocation/feasibility.py.
use multi_robot_fulfillment.Common.{
  ℕ, ◌+◌, Bool, true, not, Option, none, some, List, [], ◌∷◌, ◌++◌, ◌==◌, if◌then◌else◌, sorted,
  keep_if, ltb, nat_eq, ok, Action, ◌>>=◌, pure,
}
use multi_robot_fulfillment.Common.Int.{ℤ, pos, leb_ℤ}
use multi_robot_fulfillment.Common.Float.{whole_ℤ, ◌/f◌}
use multi_robot_fulfillment.Robot.{Robot, is_available, can_carry}
use multi_robot_fulfillment.Task.{Task, TaskStatus, status_eq}
use multi_robot_fulfillment.Simulator.{more_urgent}
use multi_robot_fulfillment.Allocation.Cost.{AssignmentCost, total, CostEstimator, estimate}

pub record CandidatePair : Type 0 where
  pub robot_id : ℕ
  pub task_id : ℕ
  pub cost : AssignmentCost

unfoldable pub eligible_robots : List Robot → List Robot
eligible_robots robots =
    sorted (λ (a b : Robot). ltb a.robot_id b.robot_id) (keep_if is_available robots)

unfoldable pub pending_tasks : List Task → List Task
pending_tasks tasks =
    sorted more_urgent (keep_if (λ (t : Task). t.status == TaskStatus.pending) tasks)

-- `route_moves <= battery_level / battery_drain_per_move`, and no bound without a drain.
unfoldable pub is_battery_feasible : Robot → ℤ → Bool
is_battery_feasible robot route_moves =
    if leb_ℤ robot.battery_drain_per_move (pos 0)
    then true
    else leb_ℤ (whole_ℤ route_moves) (robot.battery_level /f robot.battery_drain_per_move)

abbrev pub pair_if_charged : Robot → Task → Option AssignmentCost → Option CandidatePair
pair_if_charged robot task none = none
pair_if_charged robot task (some cost) =
    if is_battery_feasible robot (total cost)
    then some (record { robot_id = robot.robot_id; task_id = task.task_id; cost = cost })
    else none

-- The body of the two loops: the pair, or none for one that is not feasible.
unfoldable pub price_pair : Robot → Task → Action CostEstimator (Option CandidatePair)
price_pair robot task e =
    if not (can_carry task.payload_weight robot)
    then (ok none, e)
    else (do cost ← estimate robot task; pure (pair_if_charged robot task cost)) e

pub record Candidates : Type 0 where
  pub feasible : List CandidatePair
  pub infeasible : ℕ

abbrev pub add_pair : Option CandidatePair → Candidates → Candidates
add_pair none found = record found { infeasible = found.infeasible + 1 }
add_pair (some pair) found = record found { feasible = found.feasible ++ (pair ∷ []) }

unfoldable pub price_tasks : Robot → List Task → Candidates → Action CostEstimator Candidates
price_tasks robot [] found = pure found
price_tasks robot (task ∷ tasks) found = do
  pair ← price_pair robot task
  price_tasks robot tasks (add_pair pair found)

unfoldable pub price_robots : List Robot → List Task → Candidates → Action CostEstimator Candidates
price_robots [] tasks found = pure found
price_robots (robot ∷ robots) tasks found = do
  found' ← price_tasks robot tasks found
  price_robots robots tasks found'

unfoldable pub build_candidate_pairs : List Robot → List Task → Action CostEstimator Candidates
build_candidate_pairs robots tasks =
    price_robots (eligible_robots robots) (pending_tasks tasks)
      (record { feasible = []; infeasible = 0 })
