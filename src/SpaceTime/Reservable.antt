-- ===== src/SpaceTime/Reservable.antt =====
-- The table that a path was planned against accepts it: `plan` of
-- robotics/coordination/space_time_planner.py before `reserve_timed_path` of reservation_table.py.
use multi_robot_fulfillment.Common.{
  ℕ, ◌≡◌, ◌≢◌, ◌⊎◌, inl, inr, true, false, some, List, [], ◌∷◌, arith, ok, last?, subst, sym, ap,
  ◌∙◌,
}
use multi_robot_fulfillment.Geometry.{Position}
use multi_robot_fulfillment.Warehouse.{Warehouse}
use multi_robot_fulfillment.Coordination.{
  TimedStep, TimedPath, FailureReason, found, failed, ReservationTable, reserve_timed_path,
}
use multi_robot_fulfillment.Coordination.Reserved.{AtStep, AtGoal, Occupies}
use multi_robot_fulfillment.Coordination.Positions.{last-last_step, IsSchedule}
use multi_robot_fulfillment.Coordination.Claims.{IsGuarded, Grants, Granted}
use multi_robot_fulfillment.Coordination.Accepted.{MovesAt, HasPath, reserve_timed_path-Granted}
use multi_robot_fulfillment.SpaceTime.{SpaceTimePlanner, plan}
use multi_robot_fulfillment.SpaceTime.Steps.{IsUnclaimed, IsUnopposed}
use multi_robot_fulfillment.SpaceTime.Walks.{IsLegal, IsLegal-IsTimed}
use multi_robot_fulfillment.SpaceTime.Answers.{IsDelivered}
use multi_robot_fulfillment.SpaceTime.Plans.{plan-Outcome}

pub failed_success :
    (p : TimedPath) (robot_id : ℕ) (reason : FailureReason)
    → p ≡ failed robot_id reason
    → p.success ≡ false
unfolding failed
failed_success p robot_id reason h = ap (λ q. q.success) h

pub failed_name :
    (p : TimedPath) (robot_id : ℕ) (reason : FailureReason)
    → p ≡ failed robot_id reason
    → p.robot_id ≡ robot_id
unfolding failed
failed_name p robot_id reason h = ap (λ q. q.robot_id) h

module _ (w : Warehouse) (table : ReservationTable) (robot_id horizon : ℕ) where
  later-IsUnclaimed :
      (s : TimedStep) (ss : List TimedStep) (c : Position) (i : ℕ)
      → IsLegal w table robot_id horizon s ss
      → AtStep ss c i
      → IsUnclaimed table robot_id c i
  later-IsUnclaimed s [] c i legal m = absurd m
  later-IsUnclaimed s (q ∷ qs) c i (a, legal) (inl (cell, time)) =
      rw (← cell, ← time, a.next) a.unclaimed
  later-IsUnclaimed s (q ∷ qs) c i (a, legal) (inr m) = later-IsUnclaimed q qs c i legal m

  IsLegal-IsUnopposed :
      (s : TimedStep) (ss : List TimedStep) (a b : Position) (i : ℕ)
      → IsLegal w table robot_id horizon s ss
      → MovesAt (s ∷ ss) a b i
      → a ≢ b
      → IsUnopposed table robot_id a b i
  IsLegal-IsUnopposed s [] a b i legal m ne = absurd m
  IsLegal-IsUnopposed s (q ∷ qs) a b i (step, legal) (inl (from_a, to_b, time)) ne = elim step.way [
    | inl stays ↦ absurd (ne (sym from_a ∙ (sym stays ∙ to_b)))
    | inr (near, way) ↦ rw (← from_a, ← to_b, ← time) way
  ]
  IsLegal-IsUnopposed s (q ∷ qs) a b i (step, legal) (inr m) ne =
      IsLegal-IsUnopposed q qs a b i legal m ne

module _ (planner : SpaceTimePlanner) (start goal : Position) (table : ReservationTable)
    (robot_id start_time horizon : ℕ) (p : TimedPath) (arrival : ℕ)
    (delivered : IsDelivered planner start goal table robot_id start_time horizon p arrival) where
  open delivered use {others, is_found, start_unclaimed, legal, ends, parkable}

  abbrev pub first : TimedStep
  first = record { position = start; timestep = start_time }

  pub steps_lem : p.steps ≡ first ∷ others
  unfolding found
  steps_lem = ap (λ q. q.steps) is_found

  pub delivered-robot_id : p.robot_id ≡ robot_id
  unfolding found
  delivered-robot_id = ap (λ q. q.robot_id) is_found

  pub delivered-success : p.success ≡ true
  unfolding found
  delivered-success = ap (λ q. q.success) is_found

  pub last_lem : last? p.steps ≡ some (record { position = goal; timestep = arrival })
  last_lem = ap last? steps_lem ∙ (last-last_step first others ∙ ap some ends)

  -- The path has one step for each timestep, and its last step is the arrival.
  abbrev pub delivered-IsSchedule : IsSchedule p
  delivered-IsSchedule = record {
    first = first;
    others = others;
    steps = steps_lem;
    timed = IsLegal-IsTimed planner.warehouse table robot_id horizon first others legal;
  }

  step-IsUnclaimed :
      (c : Position) (i : ℕ) → AtStep (first ∷ others) c i → IsUnclaimed table robot_id c i
  step-IsUnclaimed c i (inl (cell, time)) = rw (← cell, ← time) start_unclaimed
  step-IsUnclaimed c i (inr m) =
      later-IsUnclaimed planner.warehouse table robot_id horizon first others c i legal m

  occupied-IsUnclaimed :
      (c : Position) (i : ℕ) → Occupies p horizon c i → IsUnclaimed table p.robot_id c i
  occupied-IsUnclaimed c i m = rw delivered-robot_id (elim m.there [
    | inl there ↦ step-IsUnclaimed c i (subst (λ l. AtStep l c i) steps_lem there)
    | inr parked ↦
        let at_goal : AtGoal (some (record { position = goal; timestep = arrival })) horizon c i =
          subst (λ l. AtGoal l horizon c i) last_lem parked in
        subst (λ cell. IsUnclaimed table robot_id cell i) at_goal.0
          (parkable i (omega (arith, at_goal.1)) at_goal.2)
  ])

  -- The table accepts the path.
  pub delivered-Granted :
      IsGuarded table
      → Granted p.robot_id (reserve_timed_path p horizon) table
        × HasPath p horizon (reserve_timed_path p horizon table).1
  delivered-Granted g =
      reserve_timed_path-Granted p (record { position = goal; timestep = arrival }) horizon table
        delivered-success last_lem g occupied-IsUnclaimed

  pub delivered-IsUnopposed :
      (a b : Position) (i : ℕ) → MovesAt p.steps a b i → a ≢ b → IsUnopposed table robot_id a b i
  delivered-IsUnopposed a b i m =
      IsLegal-IsUnopposed planner.warehouse table robot_id horizon first others a b i legal
        (subst (λ l. MovesAt l a b i) steps_lem m)

-- A path that the planner finds around a table in which whoever holds a move holds the cell that it
-- leaves, up to a given horizon, is accepted by that table; then the table has this property again,
-- every cell and move of the path stands in it under the robot's name, and no cell or move of
-- another robot is lost.
pub plan-reserve_timed_path :
    (planner : SpaceTimePlanner) (start goal : Position) (table : ReservationTable)
    (robot_id start_time horizon : ℕ)
    → IsGuarded table
    → (p : TimedPath) × (plan planner start goal table robot_id start_time (some horizon) ≡ ok p)
      × let (answer, table') = reserve_timed_path p horizon table in
        ((p.success ≡ false)
          ⊎ (answer ≡ ok tt)
            × IsGuarded table'
            × HasPath p horizon table'
            × Grants robot_id table table')
plan-reserve_timed_path planner start goal table robot_id start_time horizon g =
    let (p, returns, outcome) =
      plan-Outcome planner start goal table robot_id start_time (some horizon) in
    (
      p,
      returns,
      elim outcome [
        | inl (arrival, delivered, _) ↦
            let (granted, has) =
              delivered-Granted planner start goal table robot_id start_time horizon p arrival
                delivered g in
            let name =
              delivered-robot_id planner start goal table robot_id start_time horizon p arrival
                delivered in
            inr (
              granted.returns,
              granted.grants.guards g,
              has,
              subst (λ r. Grants r table (reserve_timed_path p horizon table).1) name
                  granted.grants,
            )
        | inr (undelivered, _) ↦
            inl (failed_success p robot_id undelivered.reason undelivered.is_failed)
      ],
    )
