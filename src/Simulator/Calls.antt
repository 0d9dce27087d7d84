-- ===== src/Simulator/Calls.antt =====
-- Sequences of calls of the simulator's methods.
use multi_robot_fulfillment.Common.{ℕ, inl, inr, List, [], ◌∷◌, nat_eq, ok, err, Result-cases}
use multi_robot_fulfillment.Common.Int.{ℤ}
use multi_robot_fulfillment.Geometry.{Position, position_eq}
use multi_robot_fulfillment.Warehouse.{Warehouse}
use multi_robot_fulfillment.Warehouse.Blocking.{IsBacked}
use multi_robot_fulfillment.Robot
use multi_robot_fulfillment.Robot.{Robot, RobotStatus}
use multi_robot_fulfillment.Robot.Battery.{post_init-IsSane}
use multi_robot_fulfillment.Task
use multi_robot_fulfillment.Task.{Task}
use multi_robot_fulfillment.Simulator
use multi_robot_fulfillment.Simulator.{
  Simulator, first_at, occupied, put_robot, get_robot, release_task, release_robot,
}
use multi_robot_fulfillment.Simulator.Fleet.{empty-IsFleet}
use multi_robot_fulfillment.Simulator.Moves.{IsSound}
use multi_robot_fulfillment.Simulator.Standing.{
  SameFloor-IsSound, add_robot-IsSound, move_robot-IsSound, charge_robot-IsSound,
}
use multi_robot_fulfillment.Simulator.Releases.{
  add_task-SameFloor, assign_task_manually-IsSound, remove_robot-IsSound,
  add_dynamic_obstacle-IsSound, remove_dynamic_obstacle-IsSound,
}

-- A call; a robot and a task are built from their fields first.
pub data Call : Type 0 where
  add_robot : Robot → Call
  remove_robot : ℕ → Call
  move_robot : ℕ → Position → Call
  charge_robot : ℕ → ℤ → Call
  add_task : Task → Call
  assign_task_manually : ℕ → ℕ → Call
  add_dynamic_obstacle : ℕ → Position → Call
  remove_dynamic_obstacle : ℕ → Call

-- The state after the call, whether it returned or raised.
abbrev pub after_call : Call → Simulator → Simulator
after_call (Call.add_robot r) s = elim (Robot.post_init r) [
  | ok _ ↦ (Simulator.add_robot r s).1
  | err _ ↦ s
]
after_call (Call.remove_robot i) s = (Simulator.remove_robot i s).1
after_call (Call.move_robot i p) s = (Simulator.move_robot i p s).1
after_call (Call.charge_robot i amount) s = (Simulator.charge_robot i amount s).1
after_call (Call.add_task t) s = elim (Task.post_init t) [
  | ok _ ↦ (Simulator.add_task t s).1
  | err _ ↦ s
]
after_call (Call.assign_task_manually t i) s = (Simulator.assign_task_manually t i s).1
after_call (Call.add_dynamic_obstacle i p) s = (Simulator.add_dynamic_obstacle i p s).1
after_call (Call.remove_dynamic_obstacle i) s = (Simulator.remove_dynamic_obstacle i s).1

abbrev pub after_calls : List Call → Simulator → Simulator
after_calls [] s = s
after_calls (c ∷ cs) s = after_calls cs (after_call c s)

after_call-IsSound : (c : Call) (s : Simulator) → IsSound s → IsSound (after_call c s)
after_call-IsSound (Call.add_robot r) s sound = elim (Result-cases (Robot.post_init r)) [
  | inl (_, built) ↦ rw (after_call, built) (add_robot-IsSound r s (post_init-IsSane r built) sound)
  | inr (e, raised) ↦ rw (after_call, raised) sound
]
after_call-IsSound (Call.remove_robot i) s sound = remove_robot-IsSound i s sound
after_call-IsSound (Call.move_robot i p) s sound = move_robot-IsSound i p s sound
after_call-IsSound (Call.charge_robot i amount) s sound = charge_robot-IsSound i amount s sound
after_call-IsSound (Call.add_task t) s sound = elim (Result-cases (Task.post_init t)) [
  | inl (_, built) ↦
      rw (after_call, built)
        (SameFloor-IsSound s (Simulator.add_task t s).1 (add_task-SameFloor t s) sound)
  | inr (e, raised) ↦ rw (after_call, raised) sound
]
after_call-IsSound (Call.assign_task_manually t i) s sound =
    assign_task_manually-IsSound t i s sound
after_call-IsSound (Call.add_dynamic_obstacle i p) s sound =
    add_dynamic_obstacle-IsSound i p s sound
after_call-IsSound (Call.remove_dynamic_obstacle i) s sound =
    remove_dynamic_obstacle-IsSound i s sound

keep-IsSound : (cs : List Call) (s : Simulator) → IsSound s → IsSound (after_calls cs s)
keep-IsSound [] s sound = sound
keep-IsSound (c ∷ cs) s sound = keep-IsSound cs (after_call c s) (after_call-IsSound c s sound)

-- From a simulator without robots, over a warehouse whose blocked cells are those of its obstacles,
-- any sequence of calls, those that raise included, leaves a state in which every robot is registered
-- once under its own name, stands alone on a free cell of the floor, and has a charge from 0 to
-- 100 and a payload from 0 to its capacity.
pub after_calls-IsSound :
    (cs : List Call) (w : Warehouse) → IsBacked w → IsSound (after_calls cs (Simulator.new w))
unfolding Simulator.new
after_calls-IsSound cs w backed =
    keep-IsSound cs (Simulator.new w) (record { backed = backed; fleet = empty-IsFleet w })
