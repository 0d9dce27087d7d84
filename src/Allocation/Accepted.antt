-- ===== src/Allocation/Accepted.antt =====
-- The plans of the greedy allocator of robotics/allocation/greedy_allocator.py, and their commit.
use multi_robot_fulfillment.Common.{
  refl, ℕ, ◌==◌, ◌≡◌, ◌⊎◌, inl, inr, List, map, arith, ok, err, Error, nat_eq, Result-cases,
}
use multi_robot_fulfillment.Common.Dict.{values}
use multi_robot_fulfillment.Task.{Task, TaskStatus, status_eq}
use multi_robot_fulfillment.Robot.{Robot}
use multi_robot_fulfillment.Simulator.{Simulator, more_urgent}
use multi_robot_fulfillment.Search.Route.{Distinct}
use multi_robot_fulfillment.Allocation.{
  Assignment, AllocationResult, RejectedReason, build_result, before_by_ids, commit_allocation,
  rejected, report_applied,
}
use multi_robot_fulfillment.Allocation.Commits.{robots_of, tasks_of, pairs_of}
use multi_robot_fulfillment.Allocation.Committed.{IsCommitted, commit_allocation_outcome}
use multi_robot_fulfillment.Allocation.Cost.{CostEstimator}
use multi_robot_fulfillment.Allocation.Feasible.{pending_tasks, Candidates, build_candidate_pairs}
use multi_robot_fulfillment.Allocation.Greedy.{result_of, allocate}
use multi_robot_fulfillment.Allocation.Errors.{IsPlanners, build-blames}
use multi_robot_fulfillment.Allocation.Once.{Distinct-sorted, Distinct-keep_if, choose-once}

abbrev pub ids_of : List Task → List ℕ
ids_of tasks = map (λ (t : Task). t.task_id) tasks

pending_tasks-once :
    (tasks : List Task) → Distinct (ids_of tasks) → Distinct (ids_of (pending_tasks tasks))
unfolding pending_tasks
pending_tasks-once tasks different =
    Distinct-sorted more_urgent (λ (t : Task). t.task_id) _
      (Distinct-keep_if (λ (t : Task). t.status == TaskStatus.pending) (λ (t : Task). t.task_id)
        tasks different)

result_of-once :
    (task_ids : List ℕ) (found : Candidates)
    → Distinct task_ids
    → Distinct (robots_of (result_of task_ids found).assignments)
      × Distinct (tasks_of (result_of task_ids found).assignments)
unfolding build_result
result_of-once task_ids found different =
    let (robots, tasks) = choose-once found.feasible task_ids different in
    (
      Distinct-sorted before_by_ids (λ (a : Assignment). a.robot_id) _ robots,
      Distinct-sorted before_by_ids (λ (a : Assignment). a.task_id) _ tasks,
    )

allocate_cases :
    (robots : List Robot) (tasks : List Task) (e : CostEstimator)
    → ((x : Error) × ((allocate robots tasks e).0 ≡ err x) × IsPlanners e.planner e.warehouse x)
      ⊎ ((found : Candidates) × ((allocate robots tasks e).0
            ≡ ok (result_of (ids_of (pending_tasks tasks)) found)))
unfolding allocate
allocate_cases robots tasks e = elim (Result-cases (build_candidate_pairs robots tasks e).0) [
  | inr (x, raised) ↦ inl (
    x,
    ground (arith, raised),
    build-blames e.planner e.warehouse robots tasks e x (refl, refl) raised,
  )
  | inl (found, built) ↦ inr (found, ground (arith, built))
]

-- A plan of the greedy allocator for the robots and the tasks of a simulator, no two tasks with one
-- identifier, is committed as a whole or not at all. The allocation returns a plan, unless the pricing of
-- some two cells by the estimator's planner raised the same exception. With the plan
-- `commit_allocation` raises nothing: either it rejects it and changes nothing, or it makes each
-- assignment of it and changes nothing else.
pub allocate-commit_allocation :
    (s : Simulator) (e : CostEstimator)
    → Distinct (ids_of (values s.tasks))
    → ((x : Error) × ((allocate (values s.robots) (values s.tasks) e).0 ≡ err x)
        × IsPlanners e.planner e.warehouse x)
      ⊎ ((result : AllocationResult) × ((allocate (values s.robots) (values s.tasks) e).0
            ≡ ok result)
          × (((reason : RejectedReason) × (commit_allocation result s ≡ (ok (rejected reason), s)))
              ⊎ ((after : Simulator) × (commit_allocation result s
                    ≡ (ok (report_applied (pairs_of result.assignments)), after))
                  × IsCommitted s after result.assignments)))
allocate-commit_allocation s e different =
    elim (allocate_cases (values s.robots) (values s.tasks) e) [
      | inl raised ↦ inl raised
      | inr (found, returns) ↦
          let task_ids = ids_of (pending_tasks (values s.tasks)) in
          let (robots, tasks) =
            result_of-once task_ids found (pending_tasks-once (values s.tasks) different) in
          inr (
            result_of task_ids found,
            returns,
            commit_allocation_outcome (result_of task_ids found) s robots tasks,
          )
    ]
