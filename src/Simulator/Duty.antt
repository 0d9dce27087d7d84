-- ===== src/Simulator/Duty.antt =====
-- The pairing of robots and tasks: `assign_task_manually` and `remove_robot` of
-- robotics/simulation/simulator.py.
use multi_robot_fulfillment.Common.{
  ℕ, ◌≡◌, ◌≢◌, ◌⊎◌, inl, inr, true, none, some, arith, nat_eq, ok, err, Error, Option-cases,
  Eq-cases, Bool-cases, false, ap, ◌∙◌,
}
use multi_robot_fulfillment.Common.Dict.{
  lookup, insert, erase, IsDict, lookup-insert_self, lookup-insert_ne, lookup-erase_self,
  lookup-erase_ne, insert-IsDict,
}
use multi_robot_fulfillment.Robot
use multi_robot_fulfillment.Robot.{Robot, RobotStatus, is_available, can_carry}
use multi_robot_fulfillment.Task
use multi_robot_fulfillment.Task.{Task, TaskStatus, status_eq, allowed_transitions, is_open}
use multi_robot_fulfillment.Simulator
use multi_robot_fulfillment.Simulator.{
  Simulator, put_robot, put_task, get_robot, get_task, release_task, release_robot,
}

robot_takes :
    (task_id : ℕ) (r : Robot)
    → is_available r ≡ true
    → Robot.assign_task task_id r
      ≡ (ok tt, record r { assigned_task_id = some task_id; status = RobotStatus.assigned })
unfolding Robot.assign_task
robot_takes task_id r h = ground arith

task_is_given :
    (robot_id : ℕ) (t : Task)
    → t.status ≡ TaskStatus.pending
    → Task.assign_to robot_id t
      ≡ (ok tt, record t { status = TaskStatus.assigned; assigned_robot_id = some robot_id })
unfolding Task.assign_to Task.transition_to allowed_transitions
task_is_given robot_id t h = ground arith

task_goes_back :
    (t : Task)
    → t.status ≡ TaskStatus.assigned
    → Task.unassign t ≡ (ok tt, record t { status = TaskStatus.pending; assigned_robot_id = none })
unfolding Task.unassign Task.transition_to allowed_transitions
task_goes_back t h = ground arith

task_fails :
    (reason : ℕ) (t : Task)
    → t.status ≡ TaskStatus.in_progress
    → Task.fail reason t
      ≡ (ok tt, record t { status = TaskStatus.failed; failure_reason = some reason })
unfolding Task.fail Task.transition_to allowed_transitions
task_fails reason t h = ground arith

module _ (task_id robot_id : ℕ) (s : Simulator) where
  -- The state in which the robot and the task name each other.
  abbrev pub paired : Robot → Task → Simulator
  paired r t =
      put_task task_id
        (record t { status = TaskStatus.assigned; assigned_robot_id = some r.robot_id })
        (put_robot robot_id
          (record r { assigned_task_id = some t.task_id; status = RobotStatus.assigned }) s)

  pub pair_done :
      (r : Robot) (t : Task)
      → lookup robot_id s.robots ≡ some r
      → lookup task_id s.tasks ≡ some t
      → t.status ≡ TaskStatus.pending
      → is_available r ≡ true
      → can_carry t.payload_weight r ≡ true
      → Simulator.assign_task_manually task_id robot_id s ≡ (ok tt, paired r t)
  unfolding Simulator.assign_task_manually get_robot get_task
  pair_done r t known known' pending free fits =
      ground (arith, robot_takes t.task_id r, task_is_given r.robot_id t)

  -- Why the pairing is refused.
  pub data IsRefused : Type 0 where
    unknown_robot : lookup robot_id s.robots ≡ none → IsRefused
    unknown_task : lookup task_id s.tasks ≡ none → IsRefused
    not_pending :
        (t : Task) → lookup task_id s.tasks ≡ some t → t.status ≢ TaskStatus.pending → IsRefused
    not_available :
        (r : Robot) → lookup robot_id s.robots ≡ some r → is_available r ≡ false → IsRefused
    too_heavy :
        (r : Robot) (t : Task)
        → lookup robot_id s.robots ≡ some r
        → lookup task_id s.tasks ≡ some t
        → can_carry t.payload_weight r ≡ false
        → IsRefused

  pair_refused :
      IsRefused
      → Simulator.assign_task_manually task_id robot_id s ≡ (err Error.simulation_error, s)
  unfolding Simulator.assign_task_manually get_robot get_task
  pair_refused (unknown_robot absent) = elim (Option-cases (lookup task_id s.tasks)) [
    | inl nothing ↦ ground (arith, absent, nothing)
    | inr (t, known) ↦ ground (arith, absent, known)
  ]
  pair_refused (unknown_task absent) = ground (arith, absent)
  pair_refused (not_pending t known busy) = elim (Option-cases (lookup robot_id s.robots)) [
    | inl absent ↦ ground (arith, absent, known)
    | inr (r, known') ↦ elim (Eq-cases t.status TaskStatus.pending) [
      | inl (same, _) ↦ absurd (busy same)
      | inr (_, test) ↦ ground (arith, known, known', test)
    ]
  ]
  pair_refused (not_available r known busy) = elim (Option-cases (lookup task_id s.tasks)) [
    | inl absent ↦ ground (arith, absent)
    | inr (t, known') ↦ ground (arith, known, known', busy)
  ]
  pair_refused (too_heavy r t known known' heavy) = ground (arith, known, known', heavy)

  -- `assign_task_manually` is all or nothing. If the task and the robot are registered, the task is
  -- pending, and the robot is available and can carry it, then they name each other, both with the
  -- status assigned, and no check of the two objects refuses. If one of these conditions fails,
  -- SimulationError is raised and nothing changes.
  pub assign_task_manually_outcome :
      ((r : Robot) × (t : Task) × (lookup robot_id s.robots ≡ some r)
        × (lookup task_id s.tasks ≡ some t)
        × (t.status ≡ TaskStatus.pending)
        × (is_available r ≡ true)
        × (can_carry t.payload_weight r ≡ true)
        × (Simulator.assign_task_manually task_id robot_id s ≡ (ok tt, paired r t)))
      ⊎ (Simulator.assign_task_manually task_id robot_id s ≡ (err Error.simulation_error, s))
        × IsRefused
  assign_task_manually_outcome = elim (Option-cases (lookup task_id s.tasks)) [
    | inl absent ↦ inr (pair_refused (unknown_task absent), unknown_task absent)
    | inr (t, known) ↦ elim (Option-cases (lookup robot_id s.robots)) [
      | inl absent ↦ inr (pair_refused (unknown_robot absent), unknown_robot absent)
      | inr (r, known') ↦ elim (Eq-cases t.status TaskStatus.pending) [
        | inr (busy, _) ↦ inr (pair_refused (not_pending t known busy), not_pending t known busy)
        | inl (pending, _) ↦ elim (Bool-cases (is_available r)) [
          | inr busy ↦ inr (pair_refused (not_available r known' busy), not_available r known' busy)
          | inl free ↦ elim (Bool-cases (can_carry t.payload_weight r)) [
            | inr heavy ↦
                inr (
                  pair_refused (too_heavy r t known' known heavy),
                  too_heavy r t known' known heavy,
                )
            | inl fits ↦ inl (
              r,
              t,
              known',
              known,
              pending,
              free,
              fits,
              pair_done r t known' known pending free fits,
            )
          ]
        ]
      ]
    ]
  ]

-- What becomes of the task of a robot that leaves.
abbrev pub released : ℕ → Task → Task
released reason t = elim t.status [
  | TaskStatus.assigned ↦ record t { status = TaskStatus.pending; assigned_robot_id = none }
  | TaskStatus.in_progress ↦ record t { status = TaskStatus.failed; failure_reason = some reason }
  | _ ↦ t
]

-- The task of the robot in the state that its release leaves.
release_task_lem :
    (task_id reason : ℕ) (s : Simulator) (t : Task)
    → lookup task_id s.tasks ≡ some t
    → t.status ≢ TaskStatus.pending
    → ((release_task task_id reason s).0 ≡ ok tt)
      × (lookup task_id (release_task task_id reason s).1.tasks ≡ some (released reason t))
unfolding release_task
release_task_lem task_id reason s t known busy = ground (
  arith,
  task_goes_back t,
  task_fails reason t,
  lookup-insert_self task_id (released reason t) s.tasks,
)

release_task_robots :
    (task_id reason : ℕ) (s : Simulator) → (release_task task_id reason s).1.robots ≡ s.robots
unfolding release_task
release_task_robots task_id reason s = ground arith

removed :
    (robot_id task_id : ℕ) (s : Simulator) (r : Robot)
    → lookup robot_id s.robots ≡ some r
    → r.assigned_task_id ≡ some task_id
    → (release_task task_id robot_id s).0 ≡ ok tt
    → (Simulator.remove_robot robot_id s).1.robots
      ≡ erase robot_id (insert robot_id (Robot.clear_task r) s.robots)
unfolding Simulator.remove_robot get_robot release_robot
removed robot_id task_id s r known held returns =
    ground (arith, returns, release_task_robots task_id robot_id s)

-- With no robot registered twice, a robot that holds a task which is not pending is removed without an
-- exception: it is registered no longer and every other robot is as before; an assigned task goes back
-- to the queue without a robot, a running one fails, with the robot's name as the reason, and a closed
-- one stays as it is.
pub remove_robot_releases :
    (robot_id task_id other : ℕ) (s : Simulator) (r : Robot) (t : Task)
    → IsDict s.robots
    → lookup robot_id s.robots ≡ some r
    → r.assigned_task_id ≡ some task_id
    → lookup task_id s.tasks ≡ some t
    → t.status ≢ TaskStatus.pending
    → other ≢ robot_id
    → let after = (Simulator.remove_robot robot_id s).1 in
      ((Simulator.remove_robot robot_id s).0 ≡ ok tt)
      × (lookup robot_id after.robots ≡ none)
      × (lookup other after.robots ≡ lookup other s.robots)
      × (lookup task_id after.tasks ≡ some (released robot_id t))
unfolding Simulator.remove_robot get_robot release_robot
remove_robot_releases robot_id task_id other s r t ids known held known' busy differs =
    let (returns, task) = release_task_lem task_id robot_id s t known' busy in
    let left = removed robot_id task_id s r known held returns in
    let inserted = insert robot_id (Robot.clear_task r) s.robots in
    (
      ground (arith, returns),
      ap (lookup robot_id) left
          ∙ lookup-erase_self robot_id inserted
              (insert-IsDict robot_id (Robot.clear_task r) s.robots ids),
      ap (lookup other) left
          ∙ lookup-erase_ne robot_id other inserted differs
          ∙ lookup-insert_ne robot_id other (Robot.clear_task r) s.robots differs,
      ground (arith, returns, task),
    )
