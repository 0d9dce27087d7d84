-- ===== src/Allocation/Greedy.antt =====
-- The greedy allocator: robotics/allocation/greedy_allocator.py.
use multi_robot_fulfillment.Common.{
  ℕ, Bool, true, ◌&&◌, ◌||◌, Option, none, some, List, [], ◌∷◌, if◌then◌else◌, map, sorted, keep_if,
  contains, length, ltb, nat_eq, nat_beq, Action, ◌>>=◌, pure,
}
use multi_robot_fulfillment.Common.Int.{ltb_ℤ, beq_ℤ}
use multi_robot_fulfillment.Robot.{Robot}
use multi_robot_fulfillment.Task.{Task}
use multi_robot_fulfillment.Allocation.{Assignment, AllocationResult, build_result}
use multi_robot_fulfillment.Allocation.Cost.{total, CostEstimator}
use multi_robot_fulfillment.Allocation.Feasible.{
  CandidatePair, pending_tasks, Candidates, build_candidate_pairs,
}

-- The order of the keys `(total_cost, robot_id)`.
abbrev pub cheaper : CandidatePair → CandidatePair → Bool
cheaper a b =
    ltb_ℤ (total a.cost) (total b.cost)
    || beq_ℤ (total a.cost) (total b.cost) && ltb a.robot_id b.robot_id

-- `by_task.get(task_id, ())` after the sort.
unfoldable pub pairs_for : ℕ → List CandidatePair → List CandidatePair
pairs_for task_id feasible =
    sorted cheaper (keep_if (λ (p : CandidatePair). nat_beq p.task_id task_id) feasible)

-- The first pair whose robot is not used yet.
unfoldable pub first_free : List ℕ → List CandidatePair → Option CandidatePair
first_free used_robots [] = none
first_free used_robots (pair ∷ pairs) =
    if contains used_robots pair.robot_id then first_free used_robots pairs else some pair

abbrev pub assignment_of : CandidatePair → Assignment
assignment_of pair = record {
  robot_id = pair.robot_id;
  task_id = pair.task_id;
  robot_to_pickup_cost = pair.cost.robot_to_pickup;
  pickup_to_dropoff_cost = pair.cost.pickup_to_dropoff;
}

unfoldable pub choose : List ℕ → List CandidatePair → List ℕ → List Assignment
choose [] feasible used_robots = []
choose (task_id ∷ task_ids) feasible used_robots =
    elim (first_free used_robots (pairs_for task_id feasible)) [
      | none ↦ choose task_ids feasible used_robots
      | some pair ↦ assignment_of pair ∷ choose task_ids feasible (pair.robot_id ∷ used_robots)
    ]

abbrev pub result_of : List ℕ → Candidates → AllocationResult
result_of candidate_task_ids found =
    build_result true (choose candidate_task_ids found.feasible []) candidate_task_ids
      (length found.feasible) found.infeasible

unfoldable pub allocate : List Robot → List Task → Action CostEstimator AllocationResult
allocate robots tasks = do
  found ← build_candidate_pairs robots tasks
  pure (result_of (map (λ (t : Task). t.task_id) (pending_tasks tasks)) found)
