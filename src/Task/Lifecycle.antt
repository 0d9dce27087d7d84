-- ===== src/Task/Lifecycle.antt =====
-- The lifecycle of a task of robotics/tasks/task.py under sequences of method calls.
use multi_robot_fulfillment.Common.{
  ℕ, ◌≡◌, ◌≢◌, ◌⊎◌, inl, inr, refl, true, false, Option, none, List, [], ◌∷◌, arith, Result, ok,
  err, Error, contains, Bool-cases,
}
use multi_robot_fulfillment.Task
use multi_robot_fulfillment.Task.{
  Task, TaskStatus, status_eq, allowed_transitions, transition_to, is_open,
}
use multi_robot_fulfillment.Robot.{is_none}

-- A call of a method that changes the task.
pub data Call : Type 0 where
  assign_to : ℕ → Call
  unassign start complete : Call
  fail : ℕ → Call

abbrev pub run : Call → Task → Result (Unit {0}) × Task
run (Call.assign_to robot_id) t = Task.assign_to robot_id t
run Call.unassign t = Task.unassign t
run Call.start t = Task.start t
run Call.complete t = Task.complete t
run (Call.fail reason) t = Task.fail reason t

abbrev pub after_calls : List Call → Task → Task
after_calls [] t = t
after_calls (c ∷ cs) t = after_calls cs (run c t).1

-- The status that a call asks for.
abbrev pub target : Call → TaskStatus
target (Call.assign_to robot_id) = TaskStatus.assigned
target Call.unassign = TaskStatus.pending
target Call.start = TaskStatus.in_progress
target Call.complete = TaskStatus.completed
target (Call.fail reason) = TaskStatus.failed

-- Who is responsible, as far as the status tells.
abbrev pub HasOwner : TaskStatus → Option ℕ → Type 0
HasOwner TaskStatus.pending robot = robot ≡ none
HasOwner TaskStatus.failed robot = Unit
HasOwner _ robot = robot ≢ none

abbrev pub HasReason : TaskStatus → Option ℕ → Type 0
HasReason TaskStatus.failed reason = reason ≢ none
HasReason _ reason = reason ≡ none

pub record IsLinked (t : Task) : Type 0 where
  pub owner : HasOwner t.status t.assigned_robot_id
  pub reason : HasReason t.status t.failure_reason

run_allowed :
    (c : Call) (t : Task)
    → contains (allowed_transitions t.status) (target c) ≡ true
    → (is_none t.assigned_robot_id ≡ false) ⊎ (target c ≢ TaskStatus.in_progress)
    → ((run c t).0 ≡ ok tt) × ((run c t).1.status ≡ target c)
unfolding Task.assign_to Task.unassign Task.start Task.complete Task.fail Task.transition_to
run_allowed (Call.assign_to i) t h owned = (ground arith, ground arith)
run_allowed Call.unassign t h owned = (ground arith, ground arith)
run_allowed Call.start t h owned = (ground arith, ground arith)
run_allowed Call.complete t h owned = (ground arith, ground arith)
run_allowed (Call.fail i) t h owned = (ground arith, ground arith)

run_refused :
    (c : Call) (t : Task)
    → contains (allowed_transitions t.status) (target c) ≡ false
    → run c t ≡ (err Error.task_error, t)
unfolding Task.assign_to Task.unassign Task.start Task.complete Task.fail Task.transition_to
run_refused (Call.assign_to i) t h = ground arith
run_refused Call.unassign t h = ground arith
run_refused Call.start t h = ground arith
run_refused Call.complete t h = ground arith
run_refused (Call.fail i) t h = ground arith

-- What a status demands of a task, for each status and each call.
owner_after :
    (c : Call) (t : Task)
    → HasOwner t.status t.assigned_robot_id
    → HasOwner (run c t).1.status (run c t).1.assigned_robot_id
unfolding Task.assign_to Task.unassign Task.start Task.complete Task.fail Task.transition_to
    allowed_transitions
owner_after (Call.assign_to i) t owner = ground arith
owner_after Call.unassign t owner = ground arith
owner_after Call.start t owner = ground arith
owner_after Call.complete t owner = ground arith
owner_after (Call.fail i) t owner = ground arith

reason_after :
    (c : Call) (t : Task)
    → HasReason t.status t.failure_reason
    → HasReason (run c t).1.status (run c t).1.failure_reason
unfolding Task.assign_to Task.unassign Task.start Task.complete Task.fail Task.transition_to
    allowed_transitions
reason_after (Call.assign_to i) t reason = ground arith
reason_after Call.unassign t reason = ground arith
reason_after Call.start t reason = ground arith
reason_after Call.complete t reason = ground arith
reason_after (Call.fail i) t reason = ground arith

-- Any sequence of calls, those that raise
-- included, keeps this of a task: a pending task has no robot, an assigned, running or completed one
-- has a robot, and a failure reason stands in a failed task and in no other.
pub after_calls-IsLinked : (cs : List Call) (t : Task) → IsLinked t → IsLinked (after_calls cs t)
after_calls-IsLinked [] t linked = linked
after_calls-IsLinked (c ∷ cs) t linked =
    after_calls-IsLinked cs (run c t).1
      (record { owner = owner_after c t linked.owner; reason = reason_after c t linked.reason })

start_owned :
    (c : Call) (t : Task)
    → HasOwner t.status t.assigned_robot_id
    → contains (allowed_transitions t.status) (target c) ≡ true
    → (is_none t.assigned_robot_id ≡ false) ⊎ (target c ≢ TaskStatus.in_progress)
unfolding allowed_transitions
start_owned (Call.assign_to i) t owner h = inr (λ e. ground arith)
start_owned Call.unassign t owner h = inr (λ e. ground arith)
start_owned Call.start t owner h = inl (ground arith)
start_owned Call.complete t owner h = inr (λ e. ground arith)
start_owned (Call.fail i) t owner h = inr (λ e. ground arith)

refuses : (c : Call) (t : Task) → is_open t ≡ false → run c t ≡ (err Error.task_error, t)
unfolding allowed_transitions
refuses c t closed = run_refused c t (ground arith)

stays : (cs : List Call) (t : Task) → is_open t ≡ false → after_calls cs t ≡ t
stays [] t closed = refl
stays (c ∷ cs) t closed = rw (refuses c t closed) (stays cs t closed)

-- On a task whose robot fits its status a call returns, and the task gets the status asked for, if
-- the table of transitions allows it, with no further condition; else the call raises TaskError and
-- the task stays as it is.
pub run_outcome :
    (c : Call) (t : Task)
    → IsLinked t
    → (contains (allowed_transitions t.status) (target c) ≡ true)
        × ((run c t).0 ≡ ok tt)
        × ((run c t).1.status ≡ target c)
      ⊎ (contains (allowed_transitions t.status) (target c) ≡ false)
        × (run c t ≡ (err Error.task_error, t))
run_outcome c t linked = elim (Bool-cases (contains (allowed_transitions t.status) (target c))) [
  | inr outlawed ↦ inr (outlawed, run_refused c t outlawed)
  | inl legal ↦
      let (returns, status) = run_allowed c t legal (start_owned c t linked.owner legal) in
      inl (legal, returns, status)
]

-- A completed or failed task is the same after any sequence of calls, each of which raises TaskError.
pub after_calls_closed :
    (c : Call) (cs : List Call) (t : Task)
    → is_open t ≡ false
    → (after_calls cs t ≡ t) × (run c (after_calls cs t) ≡ (err Error.task_error, after_calls cs t))
after_calls_closed c cs t closed =
    let same = stays cs t closed in (same, rw same (refuses c t closed))
