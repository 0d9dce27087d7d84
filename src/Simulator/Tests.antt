-- ===== src/Simulator/Tests.antt =====
-- A simulator over a floor of two rows and three columns.
use multi_robot_fulfillment.Common.{
  ◌∈◌, ◌↔◌, ℕ, ◌≡◌, ◌⊎◌, refl, true, false, some, none, List, [], ◌∷◌, ok, err, Error, arith,
  nat_eq,
}
use multi_robot_fulfillment.Common.Dict.{values, lookup}
use multi_robot_fulfillment.Common.Int.{pos}
use multi_robot_fulfillment.Geometry.{Position}
use multi_robot_fulfillment.Grid
use multi_robot_fulfillment.Warehouse
use multi_robot_fulfillment.Warehouse.{Warehouse}
use multi_robot_fulfillment.Warehouse.Blocking.{IsBacked}
use multi_robot_fulfillment.Robot.{Robot, RobotStatus, is_available, can_carry}
use multi_robot_fulfillment.Task.{Task, TaskPriority, TaskStatus}
use multi_robot_fulfillment.Simulator
use multi_robot_fulfillment.Simulator.{
  Simulator, MoveReason, put_robot, validate_move, pending_tasks,
}
use multi_robot_fulfillment.Simulator.Moves.{IsSound, Arrives, move_robot_outcome}
use multi_robot_fulfillment.Simulator.Queue.{InOrder, pending_tasks_exact}
use multi_robot_fulfillment.Simulator.Calls.{Call, after_calls, after_calls-IsSound}
use multi_robot_fulfillment.Simulator.Duty.{
  paired, IsRefused, released, assign_task_manually_outcome, remove_robot_releases,
}

abbrev cell : ℕ → ℕ → Position
cell r c = record { row = pos r; col = pos c }

abbrev floor : Warehouse
floor = record {
  grid = record { width = pos 3; height = pos 2; blocked_cells = [] };
  locations = [];
  static_obstacles = [];
  dynamic_obstacles = [];
}

new-floor : Warehouse.new (pos 3) (pos 2) ≡ ok floor
unfolding Warehouse.new Grid.new
new-floor = refl

floor-IsBacked : IsBacked floor
unfolding Warehouse.is_blocked_by_static
floor-IsBacked = record {
  static_ids = tt;
  dynamic_ids = tt;
  apart = λ i h. refl;
  backed = λ p h. h;
  floored = λ p h. absurd (ground arith);
}

abbrev robot_on : ℕ → Position → Robot
robot_on name p = record {
  robot_id = name;
  position = p;
  battery_level = pos 40;
  payload_capacity = pos 10;
  current_payload = pos 0;
  status = RobotStatus.idle;
  assigned_task_id = none;
  distance_travelled = 0;
  steps_taken = 0;
  battery_drain_per_move = pos 3;
  last_error = false;
}

abbrev parcel : Task
parcel = record {
  task_id = 4;
  pickup_location = cell 0 2;
  dropoff_location = cell 1 2;
  priority = TaskPriority.normal;
  payload_weight = pos 3;
  status = TaskStatus.pending;
  assigned_robot_id = none;
  failure_reason = none;
}

abbrev day : List Call
day =
    Call.add_robot (robot_on 1 (cell 0 0))
    ∷ Call.add_robot (robot_on 2 (cell 0 0))
    ∷ Call.add_robot (robot_on 3 (cell 0 2))
    ∷ Call.add_task parcel
    ∷ Call.assign_task_manually 4 1
    ∷ Call.move_robot 1 (cell 0 1)
    ∷ Call.move_robot 1 (cell 0 2)
    ∷ Call.add_dynamic_obstacle 9 (cell 1 1)
    ∷ Call.remove_robot 3
    ∷ []

after_calls-IsSound_example : IsSound (after_calls day (Simulator.new floor))
after_calls-IsSound_example = after_calls-IsSound day floor floor-IsBacked

abbrev opening : List Call
opening = Call.add_robot (robot_on 1 (cell 0 0)) ∷ []

move_robot_outcome_example :
    let s = after_calls opening (Simulator.new floor) in
    (lookup 1 s.robots ≡ none)
      × (Simulator.move_robot 1 (cell 0 1) s ≡ (err Error.simulation_error, s))
    ⊎ ((r : Robot) × (lookup 1 s.robots ≡ some r)
        × (((reason : MoveReason) × (validate_move 1 (cell 0 1) s ≡ ok (some reason))
              × (Simulator.move_robot 1 (cell 0 1) s
                  ≡ (err Error.invalid_move, put_robot 1 (record r { last_error = true }) s)))
            ⊎ ((validate_move 1 (cell 0 1) s ≡ ok none) × Arrives 1 (cell 0 1) s r)))
move_robot_outcome_example =
    move_robot_outcome 1 (cell 0 1) (after_calls opening (Simulator.new floor))
      (after_calls-IsSound opening floor floor-IsBacked)

abbrev ready : Simulator
ready = record {
  warehouse = floor;
  robots = (1, robot_on 1 (cell 0 0)) ∷ [];
  tasks = (4, parcel) ∷ [];
}

assign_task_manually_outcome_example :
    ((r : Robot) × (t : Task) × (lookup 1 ready.robots ≡ some r)
      × (lookup 4 ready.tasks ≡ some t)
      × (t.status ≡ TaskStatus.pending)
      × (is_available r ≡ true)
      × (can_carry t.payload_weight r ≡ true)
      × (Simulator.assign_task_manually 4 1 ready ≡ (ok tt, paired 4 1 ready r t)))
    ⊎ (Simulator.assign_task_manually 4 1 ready ≡ (err Error.simulation_error, ready))
      × IsRefused 4 1 ready
assign_task_manually_outcome_example = assign_task_manually_outcome 4 1 ready

abbrev busy_robot : Robot
busy_robot = record (robot_on 1 (cell 0 0)) { assigned_task_id = some 4 }

abbrev running : Task
running = record parcel { status = TaskStatus.in_progress; assigned_robot_id = some 1 }

abbrev working : Simulator
working = record {
  warehouse = floor;
  robots = (1, busy_robot) ∷ (3, robot_on 3 (cell 1 1)) ∷ [];
  tasks = (4, running) ∷ [];
}

remove_robot_releases_example :
    ((Simulator.remove_robot 1 working).0 ≡ ok tt)
    × (lookup 1 (Simulator.remove_robot 1 working).1.robots ≡ none)
    × (lookup 3 (Simulator.remove_robot 1 working).1.robots ≡ some (robot_on 3 (cell 1 1)))
    × (lookup 4 (Simulator.remove_robot 1 working).1.tasks ≡ some (released 1 running))
remove_robot_releases_example =
    remove_robot_releases 1 4 3 working busy_robot running (refl, (refl, tt)) refl refl refl
      (λ e. ground arith) (λ e. ground arith)

pending_tasks_exact_example :
    ((t : Task)
      → (t ∈ pending_tasks ready) ↔ ((t ∈ values ready.tasks) × (t.status ≡ TaskStatus.pending)))
    × InOrder (pending_tasks ready)
pending_tasks_exact_example = pending_tasks_exact ready
