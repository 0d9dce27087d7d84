-- ===== src/Simulator/Releases.antt =====
-- Calls that pair or remove a robot, or change the obstacles, keep the fleet sound.
use multi_robot_fulfillment.Common.{
  ℕ, ◌≡◌, ◌≢◌, ◌⊎◌, inl, inr, refl, true, none, some, arith, nat_eq, Option-cases, Result-cases,
}
use multi_robot_fulfillment.Common.Dict.{Dict, lookup, insert, erase}
use multi_robot_fulfillment.Geometry.{Position, position_eq}
use multi_robot_fulfillment.Warehouse
use multi_robot_fulfillment.Warehouse.{Warehouse}
use multi_robot_fulfillment.Warehouse.Blocking.{add_dynamic_obstacle_cases, dynamic_at}
use multi_robot_fulfillment.Warehouse.Obstacles.{any_at-insert_new, any_at-erase_le}
use multi_robot_fulfillment.Warehouse.Calls.{
  add_dynamic_obstacle-IsBacked, remove_dynamic_obstacle-IsBacked,
}
use multi_robot_fulfillment.Robot
use multi_robot_fulfillment.Robot.{Robot, RobotStatus}
use multi_robot_fulfillment.Robot.Battery.{IsSane-same, clear_task-IsSane}
use multi_robot_fulfillment.Task.{Task}
use multi_robot_fulfillment.Simulator
use multi_robot_fulfillment.Simulator.{
  Simulator, first_at, occupied, put_robot, get_robot, release_task, release_robot,
}
use multi_robot_fulfillment.Simulator.Duty.{assign_task_manually_outcome}
use multi_robot_fulfillment.Simulator.Fleet.{first_at-none, erase-IsFleet, floor-IsFleet}
use multi_robot_fulfillment.Simulator.Moves.{IsSound}
use multi_robot_fulfillment.Simulator.Standing.{SameFloor, SameFloor-IsSound, put_robot-IsSound}

pub add_task-SameFloor : (t : Task) (s : Simulator) → SameFloor s (Simulator.add_task t s).1
unfolding Simulator.add_task
add_task-SameFloor t s = record { warehouse = ground arith; robots = ground arith }

pub assign_task_manually-IsSound :
    (t i : ℕ) (s : Simulator) → IsSound s → IsSound (Simulator.assign_task_manually t i s).1
assign_task_manually-IsSound t i s sound = elim (assign_task_manually_outcome t i s) [
  | inr (same, _) ↦ rw same sound
  | inl (r, task, known, _, _, _, _, done) ↦
      let taken = record r {
        assigned_task_id = some task.task_id;
        status = RobotStatus.assigned;
      } in
      let sane = IsSane-same r (sound.fleet.sane i r known) taken refl refl refl refl in
      let there = put_robot-IsSound i r taken s sound known refl refl sane in
      rw done (record { backed = there.backed; fleet = there.fleet })
]

release_task-SameFloor :
    (task_id reason : ℕ) (s : Simulator) → SameFloor s (release_task task_id reason s).1
unfolding release_task
release_task-SameFloor task_id reason s = record { warehouse = ground arith; robots = ground arith }

remove_robot_cases :
    (i : ℕ) (s : Simulator)
    → SameFloor s (Simulator.remove_robot i s).1
      ⊎ ((r : Robot) × (lookup i s.robots ≡ some r)
          × ((robots : Dict ℕ Robot) × ((robots ≡ s.robots)
                ⊎ (robots ≡ insert i (Robot.clear_task r) s.robots))
              × ((Simulator.remove_robot i s).1.warehouse ≡ s.warehouse)
              × ((Simulator.remove_robot i s).1.robots ≡ erase i robots)))
unfolding Simulator.remove_robot get_robot release_robot
remove_robot_cases i s = elim (Option-cases (lookup i s.robots)) [
  | inl absent ↦ inl (record { warehouse = ground arith; robots = ground arith })
  | inr (r, known) ↦ elim (Option-cases r.assigned_task_id) [
    | inl nothing ↦ inr (r, known, (s.robots, inl refl, ground arith, ground arith))
    | inr (t, held) ↦
        let same = release_task-SameFloor t i s in
        elim (Result-cases (release_task t i s).0) [
          | inr (e, raised) ↦ inl (record {
            warehouse = ground (arith, same.warehouse);
            robots = ground (arith, same.robots);
          })
          | inl (_, returned) ↦ inr (
            r,
            known,
            (
              insert i (Robot.clear_task r) s.robots,
              inr refl,
              ground (arith, same.warehouse),
              ground (arith, same.robots),
            ),
          )
        ]
  ]
]

pub remove_robot-IsSound :
    (i : ℕ) (s : Simulator) → IsSound s → IsSound (Simulator.remove_robot i s).1
unfolding Robot.clear_task
remove_robot-IsSound i s sound = elim (remove_robot_cases i s) [
  | inl same ↦ SameFloor-IsSound s (Simulator.remove_robot i s).1 same sound
  | inr (r, known, (robots, inl same, floor, left)) ↦ record {
    backed = rw floor sound.backed;
    fleet = rw (floor, left, same) (erase-IsFleet s.warehouse s.robots sound.fleet i);
  }
  | inr (r, known, (robots, inr cleared, floor, left)) ↦
      let sane = clear_task-IsSane r (sound.fleet.sane i r known) in
      let there = put_robot-IsSound i r (Robot.clear_task r) s sound known refl refl sane in
      record {
        backed = rw floor sound.backed;
        fleet =
            rw (floor, left, cleared)
              (erase-IsFleet s.warehouse (insert i (Robot.clear_task r) s.robots) there.fleet i);
      }
]

-- A dynamic obstacle blocks its own cell alone, and its removal blocks none.
obstructed :
    (i : ℕ) (p q : Position) (w : Warehouse)
    → q ≢ p
    → Warehouse.is_traversable w q ≡ true
    → Warehouse.is_traversable (Warehouse.add_dynamic_obstacle i p w).1 q ≡ true
unfolding Warehouse.is_traversable Warehouse.is_blocked_by_dynamic
obstructed i p q w other free = elim (add_dynamic_obstacle_cases i p w) [
  | inl (_, same) ↦ rw same free
  | inr (_, _, fresh, _, done) ↦
      rw done (ground (arith, any_at-insert_new q i (dynamic_at i p) w.dynamic_obstacles fresh))
]

cleared :
    (i : ℕ) (q : Position) (w : Warehouse)
    → Warehouse.is_traversable w q ≡ true
    → Warehouse.is_traversable (Warehouse.remove_dynamic_obstacle i w).1 q ≡ true
unfolding Warehouse.is_traversable Warehouse.is_blocked_by_dynamic Warehouse.remove_dynamic_obstacle
cleared i q w free = ground (arith, any_at-erase_le q i w.dynamic_obstacles)

obstruct_cases :
    (i : ℕ) (p : Position) (s : Simulator)
    → ((Simulator.add_dynamic_obstacle i p s).1 ≡ s)
      ⊎ (first_at p s.robots ≡ none)
        × ((Simulator.add_dynamic_obstacle i p s).1
            ≡ record s { warehouse = (Warehouse.add_dynamic_obstacle i p s.warehouse).1 })
unfolding Simulator.add_dynamic_obstacle
obstruct_cases i p s = elim (Option-cases (first_at p s.robots)) [
  | inr (r, standing) ↦ inl (ground arith)
  | inl nobody ↦ inr (nobody, ground arith)
]

pub add_dynamic_obstacle-IsSound :
    (i : ℕ) (p : Position) (s : Simulator)
    → IsSound s
    → IsSound (Simulator.add_dynamic_obstacle i p s).1
add_dynamic_obstacle-IsSound i p s sound = elim (obstruct_cases i p s) [
  | inl same ↦ rw same sound
  | inr (nobody, done) ↦ rw done (record {
    backed = add_dynamic_obstacle-IsBacked i p s.warehouse sound.backed;
    fleet =
        floor-IsFleet s.warehouse s.robots sound.fleet
          (Warehouse.add_dynamic_obstacle i p s.warehouse).1
          (λ j r known.
            obstructed i p r.position s.warehouse (first_at-none p s.robots j r nobody known)
              (sound.fleet.free j r known));
  })
]

pub remove_dynamic_obstacle-IsSound :
    (i : ℕ) (s : Simulator) → IsSound s → IsSound (Simulator.remove_dynamic_obstacle i s).1
unfolding Simulator.remove_dynamic_obstacle
remove_dynamic_obstacle-IsSound i s sound = record {
  backed = remove_dynamic_obstacle-IsBacked i s.warehouse sound.backed;
  fleet =
      floor-IsFleet s.warehouse s.robots sound.fleet
        (Warehouse.remove_dynamic_obstacle i s.warehouse).1
        (λ j r known. cleared i r.position s.warehouse (sound.fleet.free j r known));
}
