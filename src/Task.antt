-- ===== src/Task.antt =====
-- The fulfillment task of robotics/tasks/task.py and its lifecycle. The weight is a whole number, a
-- name is a number with 0 for the empty string, and the text of `failure_reason` is a number.
pub mod Lifecycle
mod Tests
use multi_robot_fulfillment.Common.{
  ℕ, ◌≡◌, ◌↔◌, Bool, true, false, not, Option, none, some, List, [], ◌∷◌, if◌then◌else◌, Result, ok,
  err, Error, Action, ◌>>=◌, ◌>>◌, gets, raise_if, modify, nat_beq, Eq, ◌==◌, contains, arith,
}
use multi_robot_fulfillment.Common.Int.{ℤ, pos, leb_ℤ}
use multi_robot_fulfillment.Geometry.{Position, position_eq, manhattan_distance_to}
use multi_robot_fulfillment.Robot.{is_none}

pub data TaskPriority : Type 0 where
  low normal high urgent : TaskPriority

pub data TaskStatus : Type 0 where
  pending assigned in_progress completed failed : TaskStatus

abbrev pub status_number : TaskStatus → ℕ
status_number TaskStatus.pending = 0
status_number TaskStatus.assigned = 1
status_number TaskStatus.in_progress = 2
status_number TaskStatus.completed = 3
status_number TaskStatus.failed = 4

abbrev pub status_beq : TaskStatus → TaskStatus → Bool
status_beq a b = nat_beq (status_number a) (status_number b)

pub status_beq_iff : (a b : TaskStatus) → (status_beq a b ≡ true) ↔ (a ≡ b)
status_beq_iff a b = ground arith

instance abbrev pub status_eq : Eq TaskStatus
status_eq = record { beq = status_beq; beq_iff = status_beq_iff }

unfoldable pub allowed_transitions : TaskStatus → List TaskStatus
allowed_transitions TaskStatus.pending = TaskStatus.assigned ∷ TaskStatus.failed ∷ []
allowed_transitions TaskStatus.assigned =
    TaskStatus.in_progress ∷ TaskStatus.pending ∷ TaskStatus.failed ∷ []
allowed_transitions TaskStatus.in_progress = TaskStatus.completed ∷ TaskStatus.failed ∷ []
allowed_transitions TaskStatus.completed = []
allowed_transitions TaskStatus.failed = []

pub record Task : Type 0 where
  pub task_id : ℕ
  pub pickup_location : Position
  pub dropoff_location : Position
  pub priority : TaskPriority
  pub payload_weight : ℤ
  pub status : TaskStatus
  pub assigned_robot_id : Option ℕ
  pub failure_reason : Option ℕ

-- The checks of `__post_init__`.
unfoldable pub post_init : Task → Result (Unit {0})
post_init t =
    if nat_beq t.task_id 0
    then err Error.value_error
    else if leb_ℤ t.payload_weight (pos 0)
    then err Error.value_error
    else if t.pickup_location == t.dropoff_location
    then err Error.value_error
    else ok tt

abbrev pub is_open : Task → Bool
is_open t = not (contains (TaskStatus.completed ∷ TaskStatus.failed ∷ []) t.status)

unfoldable pub manhattan_length : Task → ℕ
manhattan_length t = manhattan_distance_to t.pickup_location t.dropoff_location

unfoldable pub transition_to : TaskStatus → Action Task (Unit {0})
transition_to new_status t =
    if not (contains (allowed_transitions t.status) new_status)
    then (err Error.task_error, t)
    else (ok tt, record t { status = new_status })

unfoldable pub assign_to : ℕ → Action Task (Unit {0})
assign_to robot_id = do
  transition_to TaskStatus.assigned
  modify (λ t. record t { assigned_robot_id = some robot_id })

unfoldable pub unassign : Action Task (Unit {0})
unassign = do transition_to TaskStatus.pending; modify (λ t. record t { assigned_robot_id = none })

unfoldable pub start : Action Task (Unit {0})
start = do
  unassigned ← gets (λ t. is_none t.assigned_robot_id)
  raise_if unassigned Error.task_error
  transition_to TaskStatus.in_progress

unfoldable pub complete : Action Task (Unit {0})
complete = transition_to TaskStatus.completed

unfoldable pub fail : ℕ → Action Task (Unit {0})
fail reason = do
  transition_to TaskStatus.failed
  modify (λ t. record t { failure_reason = some reason })
