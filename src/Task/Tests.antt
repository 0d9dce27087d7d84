-- ===== src/Task/Tests.antt =====
-- A task under calls of its methods.
use multi_robot_fulfillment.Common.{
  ◌≡◌, ◌⊎◌, refl, true, false, some, none, List, [], ◌∷◌, ok, err, Error, contains,
}
use multi_robot_fulfillment.Common.Int.{pos}
use multi_robot_fulfillment.Task
use multi_robot_fulfillment.Task.{Task, TaskPriority, TaskStatus, status_eq, allowed_transitions}
use multi_robot_fulfillment.Task.Lifecycle.{
  Call, run, after_calls, IsLinked, after_calls-IsLinked, run_outcome, after_calls_closed,
}

abbrev parcel : Task
parcel = record {
  task_id = 4;
  pickup_location = record { row = pos 0; col = pos 0 };
  dropoff_location = record { row = pos 0; col = pos 1 };
  priority = TaskPriority.high;
  payload_weight = pos 3;
  status = TaskStatus.pending;
  assigned_robot_id = none;
  failure_reason = none;
}

abbrev delivery : List Call
delivery =
    Call.start
    ∷ Call.assign_to 7
    ∷ Call.unassign
    ∷ Call.assign_to 8
    ∷ Call.start
    ∷ Call.complete
    ∷ Call.fail 1
    ∷ []

delivered : (after_calls delivery parcel).status ≡ TaskStatus.completed
unfolding Task.start Task.assign_to Task.unassign Task.complete Task.fail Task.transition_to
    allowed_transitions
delivered = refl

after_calls-IsLinked_example : IsLinked (after_calls delivery parcel)
after_calls-IsLinked_example =
    after_calls-IsLinked delivery parcel (record { owner = refl; reason = refl })

run_outcome_example :
    (contains (allowed_transitions TaskStatus.pending) TaskStatus.assigned ≡ true)
      × ((run (Call.assign_to 7) parcel).0 ≡ ok tt)
      × ((run (Call.assign_to 7) parcel).1.status ≡ TaskStatus.assigned)
    ⊎ (contains (allowed_transitions TaskStatus.pending) TaskStatus.assigned ≡ false)
      × (run (Call.assign_to 7) parcel ≡ (err Error.task_error, parcel))
run_outcome_example = run_outcome (Call.assign_to 7) parcel (record { owner = refl; reason = refl })

abbrev lost : Task
lost = record parcel { status = TaskStatus.failed; failure_reason = some 1 }

after_calls_closed_example :
    (after_calls delivery lost ≡ lost)
    × (run Call.start (after_calls delivery lost)
        ≡ (err Error.task_error, after_calls delivery lost))
after_calls_closed_example = after_calls_closed Call.start delivery lost refl
