-- ===== src/SpaceTime/Plans.antt =====
-- What `plan` of robotics/coordination/space_time_planner.py returns for any request.
use multi_robot_fulfillment.Common.{
  ℕ, ◌≡◌, ◌⊎◌, inl, inr, refl, true, false, Option, arith, ok, Bool-cases, ◌∙◌,
}
use multi_robot_fulfillment.Geometry.{Position, manhattan_distance}
use multi_robot_fulfillment.Warehouse
use multi_robot_fulfillment.Warehouse.{Warehouse}
use multi_robot_fulfillment.Warehouse.Neighbors.{is_traversable-in_bounds}
use multi_robot_fulfillment.Planning.{PathResult, plan_astar}
use multi_robot_fulfillment.Planning.Cells.{manhattan_distance-IsConsistent}
use multi_robot_fulfillment.Planning.Shortest.{plan_astar-IsShortest}
use multi_robot_fulfillment.Coordination.{
  TimedPath, FailureReason, failed, ReservationTable, held_by_other,
}
use multi_robot_fulfillment.Coordination.Vertices.{holder}
use multi_robot_fulfillment.SpaceTime.{
  SpaceTimePlanner, trip_for, schedule_trip, plan_until, plan, horizon_or_default,
}
use multi_robot_fulfillment.SpaceTime.Steps.{IsUnclaimed, answer-is_vertex_free}
use multi_robot_fulfillment.SpaceTime.Walks.{TripWalk-free, TripWalk-CellWalk}
use multi_robot_fulfillment.SpaceTime.Answers.{Walks, Outcome, schedule_trip-Outcome}

module _ (planner : SpaceTimePlanner) (start goal : Position) (table : ReservationTable)
    (robot_id start_time horizon : ℕ) where
  open planner use {warehouse, heuristic}

  -- The five tests before the search for a route over the floor.
  record Passes : Type 0 where
    pub inside : Warehouse.in_bounds warehouse start ≡ true
    pub inside' : Warehouse.in_bounds warehouse goal ≡ true
    pub free : Warehouse.is_traversable warehouse start ≡ true
    pub free' : Warehouse.is_traversable warehouse goal ≡ true
    pub clear : IsUnclaimed table robot_id start start_time

  -- A request that some walk could meet passes them.
  walk-Passes : (n : ℕ) → Walks planner start goal table robot_id start_time horizon n → Passes
  walk-Passes n walk =
      let (free, free', clear, _) =
        TripWalk-free (trip_for planner goal table robot_id start_time horizon) start walk in
      record {
        inside = is_traversable-in_bounds warehouse start free;
        inside' = is_traversable-in_bounds warehouse goal free';
        free = free;
        free' = free';
        clear = clear;
      }

  Rejected : Type 0
  Rejected =
      (reason : FailureReason) × (plan_until planner start goal table robot_id start_time horizon
        ≡ ok (failed robot_id reason))
      × ¬ Passes

  checked : Passes ⊎ Rejected
  unfolding plan_until Rejected
  checked = elim (Bool-cases (Warehouse.in_bounds warehouse start)) [
    | inr outside ↦
        inr (FailureReason.start_out_of_bounds, ground arith, λ p. ground (arith, p.inside))
    | inl inside ↦ elim (Bool-cases (Warehouse.in_bounds warehouse goal)) [
      | inr outside ↦
          inr (FailureReason.goal_out_of_bounds, ground arith, λ p. ground (arith, p.inside'))
      | inl inside' ↦ elim (Bool-cases (Warehouse.is_traversable warehouse start)) [
        | inr blocked ↦
            inr (FailureReason.start_obstructed, ground arith, λ p. ground (arith, p.free))
        | inl free ↦ elim (Bool-cases (Warehouse.is_traversable warehouse goal)) [
          | inr blocked ↦
              inr (FailureReason.goal_obstructed, ground arith, λ p. ground (arith, p.free'))
          | inl free' ↦ elim (Bool-cases (held_by_other robot_id (holder start start_time table))) [
            | inl claimed ↦ inr (
              FailureReason.start_reserved,
              ground (arith, answer-is_vertex_free table robot_id start start_time),
              λ p. ground (arith, p.clear),
            )
            | inr clear ↦ inl (record {
              inside = inside;
              inside' = inside';
              free = free;
              free' = free';
              clear = clear;
            })
          ]
        ]
      ]
    ]
  ]

  module _ (passes : Passes) (r : PathResult)
      (spatial : plan_astar manhattan_distance start goal warehouse ≡ ok r) where
    open passes use {inside, inside', free, free', clear}

    cut_off :
        r.success ≡ false
        → plan_until planner start goal table robot_id start_time horizon
          ≡ ok (failed robot_id FailureReason.spatially_unreachable)
    unfolding plan_until
    cut_off h = ground (arith, answer-is_vertex_free table robot_id start start_time)

    schedules :
        r.success ≡ true
        → plan_until planner start goal table robot_id start_time horizon
          ≡ schedule_trip (trip_for planner goal table robot_id start_time horizon) start
    unfolding plan_until
    schedules h = ground (arith, answer-is_vertex_free table robot_id start start_time)

  -- Every request is answered.
  pub plan_until-Outcome :
      (p : TimedPath) × (plan_until planner start goal table robot_id start_time horizon ≡ ok p)
      × Outcome planner start goal table robot_id start_time horizon p
  unfolding Rejected
  plan_until-Outcome = elim checked [
    | inr (reason, returns, no_pass) ↦ (
      failed robot_id reason,
      returns,
      inr (
        record { reason = reason; is_failed = refl },
        λ c n walk parkable. no_pass (walk-Passes n walk),
      ),
    )
    | inl passes ↦
        let (r, spatial, answers) =
          plan_astar-IsShortest manhattan_distance start goal warehouse
            manhattan_distance-IsConsistent passes.inside passes.inside' in
        elim answers [
          | inl shortest ↦
              let (p, returns, outcome) =
                schedule_trip-Outcome planner start goal table robot_id start_time horizon
                  passes.free passes.clear in
              (p, schedules passes r spatial shortest.success ∙ returns, outcome)
          | inr unreachable ↦ (
            failed robot_id FailureReason.spatially_unreachable,
            cut_off passes r spatial unreachable.failure,
            inr (
              record { reason = FailureReason.spatially_unreachable; is_failed = refl },
              λ c n walk parkable.
                  let (k, walked) =
                    TripWalk-CellWalk (trip_for planner goal table robot_id start_time horizon)
                      start walk in
                  unreachable.no_walk k walked,
            ),
          )
        ]
  ]

-- The planner returns for every request, under every heuristic and with or without a given horizon. A
-- path that it finds leads from the start, at the start time, over free cells to the goal by the
-- horizon: in each timestep the robot stays or moves to an adjacent cell, never onto a cell that
-- another robot holds then nor against another robot's move, and nobody else holds the goal from the
-- arrival through the horizon. Any other answer is a failure with a reason and no steps. Under a
-- consistent heuristic no such walk arrives for good before the path does, and after a failure there
-- is no such walk.
pub plan-Outcome :
    (planner : SpaceTimePlanner) (start goal : Position) (table : ReservationTable)
    (robot_id start_time : ℕ) (horizon : Option ℕ)
    → let until = horizon_or_default planner.warehouse horizon in
      (p : TimedPath) × (plan planner start goal table robot_id start_time horizon ≡ ok p)
      × Outcome planner start goal table robot_id start_time until p
unfolding plan
plan-Outcome planner start goal table robot_id start_time horizon =
    plan_until-Outcome planner start goal table robot_id start_time
      (horizon_or_default planner.warehouse horizon)
