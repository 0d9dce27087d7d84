-- ===== src/SpaceTime/Answers.antt =====
-- Every way in which the space-time planner answers: `plan` of
-- robotics/coordination/space_time_planner.py.
use multi_robot_fulfillment.Common.{
  ℕ, ◌+◌, ◌-◌, ◌≤◌, ◌≡◌, ◌⊎◌, inl, inr, refl, true, false, List, ◌∷◌, map, arith, ok, ltb,
  Bool-cases, ap, ◌∙◌,
}
use multi_robot_fulfillment.Geometry.{Position, position_eq, position_beq_iff}
use multi_robot_fulfillment.Warehouse
use multi_robot_fulfillment.Warehouse.{Warehouse}
use multi_robot_fulfillment.Search.{
  Search, Ending, reached, exhausted, loop, begin, reconstruct_path,
}
use multi_robot_fulfillment.Search.Loop.{begin-Costs}
use multi_robot_fulfillment.Search.Fuel.{loop_ends, unfinalized-nil}
use multi_robot_fulfillment.Search.Least.{loop-Sound, loop-Least}
use multi_robot_fulfillment.Search.Route.{reconstruct_path-IsRoute}
use multi_robot_fulfillment.Planning.Cells.{IsConsistent}
use multi_robot_fulfillment.Coordination.{
  TimedStep, TimedPath, FailureReason, found, failed, VertexKey, vertex_eq, ReservationTable,
  last_step,
}
use multi_robot_fulfillment.SpaceTime.{
  SpaceTimePlanner, Trip, state_at, step_of, trip_for, timed_query, universe, search_fuel,
  timed_report, search_trip, schedule_trip, earliest_goal_hold,
}
use multi_robot_fulfillment.SpaceTime.Steps.{IsUnclaimed}
use multi_robot_fulfillment.SpaceTime.Graph.{trip_graph, trip_finite, trip-Consistent, first_state}
use multi_robot_fulfillment.SpaceTime.Walks.{
  TimedWalk, IsParkable, IsLegal, IsRoute-IsTimedRoute, TripWalk-free, TripWalk-Walk,
}
use multi_robot_fulfillment.SpaceTime.Hold.{
  earliest_goal_hold-IsParkable, earliest_goal_hold_least, earliest_goal_hold-late,
}

module _ (planner : SpaceTimePlanner) (start goal : Position) (table : ReservationTable)
    (robot_id start_time horizon : ℕ) where
  open planner use {warehouse, heuristic}

  abbrev first_step : TimedStep
  first_step = record { position = start; timestep = start_time }

  abbrev trip : Trip
  trip = trip_for planner goal table robot_id start_time horizon

  -- A path was found: from the start, over legal steps, to a goal that the robot may keep.
  pub record IsDelivered (p : TimedPath) (arrival : ℕ) : Type 0 where
    pub others : List TimedStep
    pub is_found : p ≡ found robot_id (record { position = start; timestep = start_time } ∷ others)
    pub start_free : Warehouse.is_traversable warehouse start ≡ true
    pub start_unclaimed : IsUnclaimed table robot_id start start_time
    pub legal :
        IsLegal warehouse table robot_id horizon
          (record { position = start; timestep = start_time })
          others
    pub ends :
        last_step (record { position = start; timestep = start_time }) others
        ≡ record { position = goal; timestep = arrival }
    pub in_time : arrival ≤ horizon
    pub parkable : IsParkable table robot_id horizon goal arrival

  pub record IsUndelivered (p : TimedPath) : Type 0 where
    pub reason : FailureReason
    pub is_failed : p ≡ failed robot_id reason

  abbrev pub Walks : ℕ → Type 0
  Walks n = TimedWalk warehouse table robot_id start_time horizon start n goal

  -- No walk to the goal arrives earlier for good.
  abbrev pub IsEarliest : ℕ → Type 0
  IsEarliest arrival =
      (n : ℕ)
      → Walks n
      → IsParkable table robot_id horizon goal (start_time + n)
      → arrival ≤ start_time + n

  -- No walk reaches the goal for good.
  abbrev pub IsHopeless : Type 0
  IsHopeless = (n : ℕ) → Walks n → ¬ IsParkable table robot_id horizon goal (start_time + n)

  abbrev pub Outcome : TimedPath → Type 0
  Outcome p =
      ((arrival : ℕ) × IsDelivered p arrival × (IsConsistent heuristic → IsEarliest arrival))
      ⊎ (IsUndelivered p × (IsConsistent heuristic → IsHopeless))

  -- A walk that ends on a goal to keep ends in a goal state of the search.
  walk-is_goal :
      (n : ℕ)
      → Walks n
      → IsParkable table robot_id horizon goal (start_time + n)
      → (timed_query trip).is_goal (state_at goal (start_time + n)) ≡ true
  walk-is_goal n walk parkable = ground (
    arith,
    (position_beq_iff goal goal).1 refl,
    earliest_goal_hold_least goal table robot_id start_time horizon (start_time + n) (omega arith)
        (TripWalk-free trip start walk).3 parkable,
  )

  module _ (free : Warehouse.is_traversable warehouse start ≡ true) (soon : start_time ≤ horizon)
      (clear : IsUnclaimed table robot_id start start_time) where
    search_returns :
        (ending : Ending VertexKey) × (loop
            (timed_query trip)
            (search_fuel trip)
            (begin (timed_query trip) (first_state trip start))
          ≡ ok ending)
    unfolding search_fuel
    search_returns =
        loop_ends (timed_query trip) (first_state trip start) (trip_graph trip start free soon)
          (trip_finite trip start free soon) (search_fuel trip)
          (begin (timed_query trip) (first_state trip start))
          (begin-Costs (timed_query trip) (first_state trip start)
            (trip_graph trip start free soon))
          (omega (arith, unfinalized-nil (universe trip)))

    report_reached :
        (at : VertexKey) (st : Search VertexKey) (cost : ℕ) (chain : List VertexKey)
        → at.timestep ≡ start_time + cost
        → reconstruct_path cost st.came_from (first_state trip start) at ≡ ok chain
        → timed_report trip start (reached at st) ≡ ok (found robot_id (map step_of chain))
    unfolding timed_report
    report_reached at st cost chain time returns =
        let links : at.timestep - start_time ≡ cost = omega arith in rw links (rw returns refl)

    searches :
        (ending : Ending VertexKey) (p : TimedPath)
        → loop
            (timed_query trip)
            (search_fuel trip)
            (begin (timed_query trip) (first_state trip start))
          ≡ ok ending
        → timed_report trip start ending ≡ ok p
        → search_trip trip start ≡ ok p
    unfolding search_trip
    searches ending p ends says = ground arith

    reached-Outcome :
        (at : VertexKey) (st : Search VertexKey)
        → loop
            (timed_query trip)
            (search_fuel trip)
            (begin (timed_query trip) (first_state trip start))
          ≡ ok (reached at st)
        → (p : TimedPath) × (search_trip trip start ≡ ok p) × Outcome p
    reached-Outcome at st ends =
        let graph = trip_graph trip start free soon in
        let query = timed_query trip in
        let first = first_state trip start in
        let sound = loop-Sound query first graph (search_fuel trip) (reached at st) ends in
        let (chain, returns, is_route) =
          reconstruct_path-IsRoute query first graph st sound.costs at sound.cost sound.at_cost in
        let route = IsRoute-IsTimedRoute trip start at sound.cost chain is_route in
        let timely = sound.costs.is_valid at sound.cost sound.at_cost in
        let time : at.timestep ≡ start_time + sound.cost = ground arith in
        let same : at.cell ≡ goal = ground (arith, sound.is_goal, position_beq_iff at.cell goal) in
        let held : earliest_goal_hold goal table robot_id start_time horizon ≤ at.timestep =
          ground (arith, sound.is_goal) in
        (
          found robot_id (map step_of chain),
          searches (reached at st) (found robot_id (map step_of chain)) ends
              (report_reached at st sound.cost chain time returns),
          inl (
            at.timestep,
            record {
              others = route.others;
              is_found = ap (found robot_id) route.begins;
              start_free = free;
              start_unclaimed = clear;
              legal = route.legal;
              ends = route.ends ∙ ap (λ c. record { position = c; timestep = at.timestep }) same;
              in_time = ground arith;
              parkable = λ i lo hi.
                  earliest_goal_hold-IsParkable goal table robot_id start_time horizon i
                    (omega arith) hi;
            },
            λ c n walk parkable.
                let le =
                  loop-Least query first graph (trip-Consistent trip start free soon c)
                    (search_fuel trip) (reached at st) ends sound.cost sound.at_cost n
                    (state_at goal (start_time + n)) (TripWalk-Walk trip start walk)
                    (walk-is_goal n walk parkable) in
                omega arith,
          ),
        )

    exhausted-Outcome :
        (st : Search VertexKey)
        → loop
            (timed_query trip)
            (search_fuel trip)
            (begin (timed_query trip) (first_state trip start))
          ≡ ok (exhausted st)
        → (p : TimedPath) × (search_trip trip start ≡ ok p) × Outcome p
    unfolding timed_report
    exhausted-Outcome st ends = (
      failed robot_id FailureReason.horizon_reached,
      searches (exhausted st) _ ends refl,
      inr (
        record { reason = FailureReason.horizon_reached; is_failed = refl },
        λ c n walk parkable. ground (
          arith,
          loop-Least (timed_query trip) (first_state trip start) (trip_graph trip start free soon)
              (trip-Consistent trip start free soon c) (search_fuel trip) (exhausted st) ends n
              (state_at goal (start_time + n)) (TripWalk-Walk trip start walk),
          walk-is_goal n walk parkable,
        ),
      ),
    )

    pub search_trip-Outcome : (p : TimedPath) × (search_trip trip start ≡ ok p) × Outcome p
    search_trip-Outcome =
        let (ending, ends) = search_returns in
        elim ending
            as (λ e.
              loop (timed_query trip) (search_fuel trip)
                  (begin (timed_query trip) (first_state trip start))
                ≡ ok e
              → (p : TimedPath) × (search_trip trip start ≡ ok p) × Outcome p) [
                | reached at st ↦ λ h. reached-Outcome at st h
                | exhausted st ↦ λ h. exhausted-Outcome st h
              ]
          ends

  too_late :
      ltb horizon (earliest_goal_hold goal table robot_id start_time horizon) ≡ true
      → schedule_trip trip start ≡ ok (failed robot_id FailureReason.goal_held)
  unfolding schedule_trip
  too_late h = ground arith

  in_time :
      (p : TimedPath)
      → ltb horizon (earliest_goal_hold goal table robot_id start_time horizon) ≡ false
      → search_trip trip start ≡ ok p
      → schedule_trip trip start ≡ ok p
  unfolding schedule_trip
  in_time p h returns = ground arith

  pub schedule_trip-Outcome :
      Warehouse.is_traversable warehouse start ≡ true
      → IsUnclaimed table robot_id start start_time
      → (p : TimedPath) × (schedule_trip trip start ≡ ok p) × Outcome p
  schedule_trip-Outcome free clear =
      elim (Bool-cases (ltb horizon (earliest_goal_hold goal table robot_id start_time horizon))) [
        | inl late ↦ (
          failed robot_id FailureReason.goal_held,
          too_late late,
          inr (
            record { reason = FailureReason.goal_held; is_failed = refl },
            λ c n walk parkable. absurd (
                ground (
                  arith,
                  earliest_goal_hold_least goal table robot_id start_time horizon (start_time + n)
                      (omega arith) (TripWalk-free trip start walk).3 parkable,
                  (TripWalk-free trip start walk).3,
                )),
          ),
        )
        | inr early ↦
            let soon : start_time ≤ horizon =
              ground (arith, earliest_goal_hold-late goal table robot_id start_time horizon) in
            let (p, returns, outcome) = search_trip-Outcome free soon clear in
            (p, in_time p early returns, outcome)
      ]
