-- ===== src/Allocation/Tests.antt =====
-- Plans for one robot and two tasks.
use multi_robot_fulfillment.Common.{
  ℕ, arith, ◌≡◌, ◌⊎◌, refl, true, false, some, none, List, [], ◌∷◌, ok, err, Error, nat_eq,
}
use multi_robot_fulfillment.Common.Dict.{lookup}
use multi_robot_fulfillment.Common.Float
use multi_robot_fulfillment.Common.Int
use multi_robot_fulfillment.Common.Int.{pos}
use multi_robot_fulfillment.Geometry.{Position}
use multi_robot_fulfillment.Warehouse.{Warehouse}
use multi_robot_fulfillment.Robot.{Robot, RobotStatus, is_available, can_carry}
use multi_robot_fulfillment.Task.{Task, TaskPriority, TaskStatus}
use multi_robot_fulfillment.Simulator.{Simulator, get_robot, get_task}
use multi_robot_fulfillment.Simulator.Duty.{paired}
use multi_robot_fulfillment.Geometry.{manhattan_distance}
use multi_robot_fulfillment.Planning.{plan_astar}
use multi_robot_fulfillment.Allocation.Greedy.{allocate}
use multi_robot_fulfillment.Allocation.Commits.{pairs_of}
use multi_robot_fulfillment.Allocation.Errors.{IsPlanners}
use multi_robot_fulfillment.Allocation.Accepted.{allocate-commit_allocation}
use multi_robot_fulfillment.Allocation.Cost
use multi_robot_fulfillment.Allocation.Cost.{Planner, estimate}
use multi_robot_fulfillment.Allocation.Cached.{after_estimates, planned_estimate, estimate_planned}
use multi_robot_fulfillment.Allocation.{
  Assignment, AllocationResult, RejectedReason, why_not_committable, first_refusal,
  commit_allocation, rejected, report_applied,
}
use multi_robot_fulfillment.Allocation.Committed.{
  IsCommitted, commit_allocation_outcome, commit_allocation_repeats,
}

abbrev cell : ℕ → ℕ → Position
cell r c = record { row = pos r; col = pos c }

abbrev floor : Warehouse
floor = record {
  grid = record { width = pos 3; height = pos 2; blocked_cells = [] };
  locations = [];
  static_obstacles = [];
  dynamic_obstacles = [];
}

abbrev carrier : Robot
carrier = record {
  robot_id = 1;
  position = cell 0 0;
  battery_level = pos 40;
  payload_capacity = pos 10;
  current_payload = pos 0;
  status = RobotStatus.idle;
  assigned_task_id = none;
  distance_travelled = 0;
  steps_taken = 0;
  battery_drain_per_move = pos 3;
  last_error = false;
}

abbrev parcel : ℕ → Task
parcel name = record {
  task_id = name;
  pickup_location = cell 0 2;
  dropoff_location = cell 1 2;
  priority = TaskPriority.normal;
  payload_weight = pos 3;
  status = TaskStatus.pending;
  assigned_robot_id = none;
  failure_reason = none;
}

abbrev ready : Simulator
ready = record {
  warehouse = floor;
  robots = (1, carrier) ∷ [];
  tasks = (4, parcel 4) ∷ (5, parcel 5) ∷ [];
}

abbrev give : ℕ → Assignment
give task_id = record {
  robot_id = 1;
  task_id = task_id;
  robot_to_pickup_cost = pos 2;
  pickup_to_dropoff_cost = pos 1;
}

abbrev plan_of : List Assignment → AllocationResult
plan_of assignments = record {
  success = true;
  assignments = assignments;
  unassigned_task_ids = [];
  total_estimated_cost = pos 3;
  eligible_pair_count = 2;
  infeasible_pair_count = 0;
}

abbrev single : AllocationResult
single = plan_of (give 4 ∷ [])

abbrev double : AllocationResult
double = plan_of (give 4 ∷ give 5 ∷ [])

commit_allocation_outcome_example :
    ((reason : RejectedReason) × (commit_allocation single ready ≡ (ok (rejected reason), ready)))
    ⊎ ((after : Simulator) × (commit_allocation single ready
          ≡ (ok (report_applied ((1, 4) ∷ [])), after))
        × IsCommitted ready after (give 4 ∷ []))
commit_allocation_outcome_example =
    commit_allocation_outcome single ready ((λ on. on), tt) ((λ on. on), tt)

commit_allocation_repeats_example :
    (r : Robot) × (t : Task) × (lookup 1 ready.robots ≡ some r)
    × (lookup 4 ready.tasks ≡ some t)
    × (commit_allocation double ready ≡ (err Error.simulation_error, paired 4 1 ready r t))
unfolding first_refusal why_not_committable get_robot get_task is_available can_carry Int.◌-ℤ◌
    Float.◌-f◌ Float.round Float.round_digits
commit_allocation_repeats_example =
    commit_allocation_repeats double ready (give 4) (give 5) [] refl refl refl refl

abbrev planner : Planner
planner = plan_astar manhattan_distance

abbrev morning : List (Robot × Task)
morning = (carrier, parcel 4) ∷ []

estimate_planned_example :
    (estimate carrier (parcel 5) (after_estimates morning (Cost.new floor planner))).0
    ≡ planned_estimate planner floor carrier (parcel 5)
estimate_planned_example = estimate_planned morning floor planner carrier (parcel 5)

allocate-commit_allocation_example :
    ((x : Error) × ((allocate (carrier ∷ []) (parcel 4 ∷ parcel 5 ∷ []) (Cost.new floor planner)).0
        ≡ err x)
      × IsPlanners (Cost.new floor planner).planner (Cost.new floor planner).warehouse x)
    ⊎ ((result : AllocationResult) × ((allocate
            (carrier ∷ [])
            (parcel 4 ∷ parcel 5 ∷ [])
            (Cost.new floor planner)).0
          ≡ ok result)
        × (((reason : RejectedReason) × (commit_allocation result ready
                ≡ (ok (rejected reason), ready)))
            ⊎ ((after : Simulator) × (commit_allocation result ready
                  ≡ (ok (report_applied (pairs_of result.assignments)), after))
                × IsCommitted ready after result.assignments)))
allocate-commit_allocation_example =
    allocate-commit_allocation ready (Cost.new floor planner)
      ((λ m. ground (arith, m)), ((λ m. m), tt))
