-- ===== src/Allocation.antt =====
-- The result of an allocator and its commit: robotics/allocation/allocation_result.py and commit.py,
-- over the simulator. A reason is a value in place of a message, and an entry of `applied` is the
-- pair of identifiers in place of its text. The names of the algorithm and of the solver's status and
-- the time, which the commit does not read, are left out.
pub mod Commits
pub mod Committed
pub mod Cost
pub mod Cached
pub mod Feasible
pub mod Greedy
pub mod Once
pub mod Errors
pub mod Accepted
mod Tests
use multi_robot_fulfillment.Common.{
  ℕ, ◌+◌, Bool, true, false, not, Option, none, some, List, [], ◌∷◌, ◌++◌, ◌==◌, map, sorted,
  keep_if, contains, if◌then◌else◌, nat_eq, nat_beq, ltb, ◌&&◌, ◌||◌, Result, ok, err, Error,
  Action, ◌>>=◌, ◌>>◌,
}
use multi_robot_fulfillment.Common.Int.{ℤ, pos, ◌+ℤ◌}
use multi_robot_fulfillment.Robot.{is_available, can_carry}
use multi_robot_fulfillment.Task.{TaskStatus, status_eq}
use multi_robot_fulfillment.Simulator
use multi_robot_fulfillment.Simulator.{Simulator, get_robot, get_task}

pub record Assignment : Type 0 where
  pub robot_id : ℕ
  pub task_id : ℕ
  pub robot_to_pickup_cost : ℤ
  pub pickup_to_dropoff_cost : ℤ

abbrev pub total_estimated_cost : Assignment → ℤ
total_estimated_cost a = a.robot_to_pickup_cost +ℤ a.pickup_to_dropoff_cost

pub record AllocationResult : Type 0 where
  pub success : Bool
  pub assignments : List Assignment
  pub unassigned_task_ids : List ℕ
  pub total_estimated_cost : ℤ
  pub eligible_pair_count : ℕ
  pub infeasible_pair_count : ℕ

abbrev pub sum_ℤ : List ℤ → ℤ
sum_ℤ [] = pos 0
sum_ℤ (n ∷ ns) = n +ℤ sum_ℤ ns

-- The order of the keys `(robot_id, task_id)`.
abbrev pub before_by_ids : Assignment → Assignment → Bool
before_by_ids a b =
    ltb a.robot_id b.robot_id || nat_beq a.robot_id b.robot_id && ltb a.task_id b.task_id

unfoldable pub build_result : Bool → List Assignment → List ℕ → ℕ → ℕ → AllocationResult
build_result success chosen_pairs candidate_task_ids eligible_count infeasible_count = record {
  success = success;
  assignments = sorted before_by_ids chosen_pairs;
  unassigned_task_ids =
      keep_if (λ tid. not (contains (map (λ (a : Assignment). a.task_id) chosen_pairs) tid))
        candidate_task_ids;
  total_estimated_cost = sum_ℤ (map total_estimated_cost chosen_pairs);
  eligible_pair_count = eligible_count;
  infeasible_pair_count = infeasible_count;
}

pub data RejectedReason : Type 0 where
  unsuccessful : RejectedReason
  unknown_id not_pending not_available too_heavy : ℕ → ℕ → RejectedReason

pub record CommitReport : Type 0 where
  pub committed : Bool
  pub applied : List (ℕ × ℕ)
  pub rejected_reason : Option RejectedReason

unfoldable pub why_not_committable : Simulator → ℕ → ℕ → Option RejectedReason
why_not_committable s robot_id task_id = elim (get_task task_id s) [
  | err _ ↦ some (RejectedReason.unknown_id robot_id task_id)
  | ok t ↦ elim (get_robot robot_id s) [
    | err _ ↦ some (RejectedReason.unknown_id robot_id task_id)
    | ok r ↦
        if not (t.status == TaskStatus.pending)
        then some (RejectedReason.not_pending robot_id task_id)
        else if not (is_available r)
        then some (RejectedReason.not_available robot_id task_id)
        else if not (can_carry t.payload_weight r)
        then some (RejectedReason.too_heavy robot_id task_id)
        else none
  ]
]

-- The dry run.
unfoldable pub first_refusal : Simulator → List Assignment → Option RejectedReason
first_refusal s [] = none
first_refusal s (a ∷ assignments) = elim (why_not_committable s a.robot_id a.task_id) [
  | some reason ↦ some reason
  | none ↦ first_refusal s assignments
]

unfoldable pub apply_all : List Assignment → List (ℕ × ℕ) → Action Simulator (List (ℕ × ℕ))
apply_all [] applied s = (ok applied, s)
apply_all (a ∷ assignments) applied s =
    (do
      Simulator.assign_task_manually a.task_id a.robot_id
      apply_all assignments (applied ++ ((a.robot_id, a.task_id) ∷ [])))
      s

abbrev pub rejected : RejectedReason → CommitReport
rejected reason = record { committed = false; applied = []; rejected_reason = some reason }

abbrev pub report_applied : List (ℕ × ℕ) → CommitReport
report_applied applied = record { committed = true; applied = applied; rejected_reason = none }

unfoldable pub commit_all : List Assignment → Action Simulator CommitReport
commit_all [] s = (ok (report_applied []), s)
commit_all (a ∷ assignments) s = elim (first_refusal s (a ∷ assignments)) [
  | some reason ↦ (ok (rejected reason), s)
  | none ↦ elim (apply_all (a ∷ assignments) [] s).0 [
    | ok applied ↦ (ok (report_applied applied), (apply_all (a ∷ assignments) [] s).1)
    | err e ↦ (err e, (apply_all (a ∷ assignments) [] s).1)
  ]
]

unfoldable pub commit_allocation : AllocationResult → Action Simulator CommitReport
commit_allocation result s =
    if not result.success
    then (ok (rejected RejectedReason.unsuccessful), s)
    else commit_all result.assignments s
