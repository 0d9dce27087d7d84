-- ===== src/Allocation/Committed.antt =====
-- Every way in which `commit_allocation` of robotics/allocation/commit.py ends.
use multi_robot_fulfillment.Common.{
  ℕ, ◌≡◌, ◌⊎◌, inl, inr, refl, sym, subst, ap, ◌∙◌, true, false, none, some, List, [], ◌∷◌, ◌∈◌,
  arith, nat_eq, ok, err, Error, Option-cases, Bool-cases,
}
use multi_robot_fulfillment.Common.Dict.{lookup, lookup-insert_self}
use multi_robot_fulfillment.Robot.{Robot, is_available}
use multi_robot_fulfillment.Task.{Task}
use multi_robot_fulfillment.Simulator
use multi_robot_fulfillment.Simulator.{Simulator}
use multi_robot_fulfillment.Simulator.Duty.{paired, assign_task_manually_outcome}
use multi_robot_fulfillment.Search.Route.{Distinct}
use multi_robot_fulfillment.Allocation.{
  Assignment, AllocationResult, RejectedReason, first_refusal, apply_all, commit_all,
  commit_allocation, rejected, report_applied,
}
use multi_robot_fulfillment.Allocation.Commits.{
  robots_of, tasks_of, pairs_of, IsCommittable, IsApplied, IsLimited, first_refusal-none,
  next_state, apply_one, apply_all-Applies,
}

-- Every assignment is applied, and nothing else has changed.
pub record IsCommitted (s after : Simulator) (assignments : List Assignment) : Type 0 where
  pub each : (a : Assignment) → a ∈ assignments → IsApplied s after a
  pub limited : IsLimited s after assignments

commit_refused :
    (s : Simulator) (assignments : List Assignment) (reason : RejectedReason)
    → first_refusal s assignments ≡ some reason
    → commit_all assignments s ≡ (ok (rejected reason), s)
unfolding commit_all first_refusal
commit_refused s [] reason h = absurd (ground arith)
commit_refused s (a ∷ rest) reason h = ground (arith, h)

commit_done :
    (s after : Simulator) (assignments : List Assignment)
    → first_refusal s assignments ≡ none
    → apply_all assignments [] s ≡ (ok (pairs_of assignments), after)
    → commit_all assignments s ≡ (ok (report_applied (pairs_of assignments)), after)
unfolding commit_all apply_all
commit_done s after [] h done = ground (arith, done)
commit_done s after (a ∷ rest) h done = ground (arith, h, done)

commit_raised :
    (s after : Simulator) (a : Assignment) (rest : List Assignment) (e : Error)
    → first_refusal s (a ∷ rest) ≡ none
    → apply_all (a ∷ rest) [] s ≡ (err e, after)
    → commit_all (a ∷ rest) s ≡ (err e, after)
unfolding commit_all
commit_raised s after a rest e h raised = ground (arith, h, raised)

module _ (result : AllocationResult) (s : Simulator) where
  goes_on : result.success ≡ true → commit_allocation result s ≡ commit_all result.assignments s
  unfolding commit_allocation
  goes_on h = ground (arith, h)

  unsuccessful :
      result.success ≡ false
      → commit_allocation result s ≡ (ok (rejected RejectedReason.unsuccessful), s)
  unfolding commit_allocation
  unsuccessful h = ground (arith, h)

  -- A result that names no robot and no task twice is committed as a whole or not at all, and no
  -- exception is raised: either the commit is rejected with a reason and nothing changes, or each
  -- robot and its task name each other, both with the status assigned, the report lists the
  -- assignments, and no other robot, no other task and nothing of the warehouse has changed.
  pub commit_allocation_outcome :
      Distinct (robots_of result.assignments)
      → Distinct (tasks_of result.assignments)
      → ((reason : RejectedReason) × (commit_allocation result s ≡ (ok (rejected reason), s)))
        ⊎ ((after : Simulator) × (commit_allocation result s
              ≡ (ok (report_applied (pairs_of result.assignments)), after))
            × IsCommitted s after result.assignments)
  commit_allocation_outcome robots tasks = elim (Bool-cases result.success) [
    | inr h ↦ inl (RejectedReason.unsuccessful, unsuccessful h)
    | inl h ↦ elim (Option-cases (first_refusal s result.assignments)) [
      | inr (reason, refused) ↦
          inl (reason, goes_on h ∙ commit_refused s result.assignments reason refused)
      | inl passed ↦
          let applies =
            apply_all-Applies s result.assignments [] robots tasks
              (first_refusal-none s result.assignments passed) in
          inr (
            applies.after,
            goes_on h ∙ commit_done s applies.after result.assignments passed applies.returns,
            record { each = applies.each; limited = applies.limited },
          )
    ]
  ]

  -- A robot with a task takes no second one.
  busy-assign :
      (a b : Assignment) (can : IsCommittable s a)
      → b.robot_id ≡ a.robot_id
      → Simulator.assign_task_manually b.task_id b.robot_id (next_state s a can)
        ≡ (err Error.simulation_error, next_state s a can)
  unfolding is_available
  busy-assign a b can same =
      elim (assign_task_manually_outcome b.task_id b.robot_id (next_state s a can)) [
        | inr (refused, _) ↦ refused
        | inl (r, t, known, _, _, free, _, _) ↦
            let at_a = subst (λ i. lookup i (next_state s a can).robots ≡ some r) same known in
            let holds = sym (lookup-insert_self a.robot_id _ s.robots) ∙ at_a in
            absurd (ground (arith, free, holds))
      ]

  apply_raised :
      (s' : Simulator) (b : Assignment) (rest : List Assignment) (applied : List (ℕ × ℕ))
      (e : Error)
      → Simulator.assign_task_manually b.task_id b.robot_id s' ≡ (err e, s')
      → apply_all (b ∷ rest) applied s' ≡ (err e, s')
  unfolding apply_all
  apply_raised s' b rest applied e h = ground (arith, h)

  -- A result that names the robot of its first assignment again in the second, and that passes the dry
  -- run, is applied in part: the first assignment is made, and SimulationError is raised.
  pub commit_allocation_repeats :
      (a b : Assignment) (rest : List Assignment)
      → result.success ≡ true
      → result.assignments ≡ a ∷ b ∷ rest
      → b.robot_id ≡ a.robot_id
      → first_refusal s result.assignments ≡ none
      → (r : Robot) × (t : Task) × (lookup a.robot_id s.robots ≡ some r)
        × (lookup a.task_id s.tasks ≡ some t)
        × (commit_allocation result s
            ≡ (err Error.simulation_error, paired a.task_id a.robot_id s r t))
  commit_allocation_repeats a b rest h is_list same passed =
      let passed' : first_refusal s (a ∷ b ∷ rest) ≡ none =
        subst (λ xs. first_refusal s xs ≡ none) is_list passed in
      let can = first_refusal-none s (a ∷ b ∷ rest) passed' a (inl refl) in
      let raised =
        apply_one s a (b ∷ rest) [] can
        ∙ apply_raised (next_state s a can) b rest ((a.robot_id, a.task_id) ∷ [])
            Error.simulation_error (busy-assign a b can same) in
      (
        can.robot,
        can.task,
        can.robot_known,
        can.task_known,
        goes_on h
            ∙ ap (λ xs. commit_all xs s) is_list
            ∙ commit_raised s (next_state s a can) a (b ∷ rest) Error.simulation_error passed'
                raised,
      )
