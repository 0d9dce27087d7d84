-- ===== src/Planning/Answers.antt =====
-- Every way in which a planner answers a request for two cells of the floor.
use multi_robot_fulfillment.Common.{
  ℕ, ◌+◌, ◌≤◌, ◌≡◌, ◌⊎◌, inl, inr, refl, true, false, none, some, List, [], ◌∷◌, ◌==◌, arith, ok,
  Bool-cases, Eq-cases, subst, ap,
}
use multi_robot_fulfillment.Geometry.{Position, position_eq, position_beq_iff, Heuristic}
use multi_robot_fulfillment.Grid
use multi_robot_fulfillment.Warehouse
use multi_robot_fulfillment.Warehouse.{Warehouse}
use multi_robot_fulfillment.Warehouse.Neighbors.{open_steps}
use multi_robot_fulfillment.Search.{Search, Ending, reached, exhausted, loop, begin}
use multi_robot_fulfillment.Search.Loop.{begin-Costs}
use multi_robot_fulfillment.Search.Fuel.{loop_ends, unfinalized-nil}
use multi_robot_fulfillment.Search.Least.{loop-Sound, loop-Least, Reaches}
use multi_robot_fulfillment.Search.Route.{IsRoute, reconstruct_path-IsRoute}
use multi_robot_fulfillment.Planning.{
  Algorithm, Reason, PathResult, found, not_found, check_planning_request, cell_query, loop_fuel,
  report, plan_by,
}
use multi_robot_fulfillment.Planning.Cells.{
  CellWalk, CellWalk-Walk, CellWalk-free, cell_graph, cell_finite, cell-Consistent, IsConsistent,
}

module _ (algorithm : Algorithm) (order : ℕ → Position → ℕ × ℕ) (start goal : Position)
    (w : Warehouse) where
  -- A route was found: over free cells, from the start to the goal, with no cell twice.
  pub record Routed (r : PathResult) (moves : ℕ) : Type 0 where
    pub path : List Position
    pub expanded : ℕ
    pub is_found : r ≡ found algorithm start goal path expanded
    pub route : IsRoute (open_steps w) start goal moves path
    pub free : Warehouse.is_traversable w start ≡ true

  pub record Unrouted (r : PathResult) : Type 0 where
    pub reason : Reason
    pub expanded : ℕ
    pub is_not_found : r ≡ not_found algorithm start goal reason expanded

  search_returns :
      Warehouse.is_traversable w start ≡ true
      → (ending : Ending Position) × (loop
            (cell_query order goal w)
            (loop_fuel w)
            (begin (cell_query order goal w) start)
          ≡ ok ending)
  unfolding loop_fuel
  search_returns free =
      loop_ends (cell_query order goal w) start (cell_graph order start goal w free)
        (cell_finite order start goal w free) (loop_fuel w) (begin (cell_query order goal w) start)
        (begin-Costs (cell_query order goal w) start (cell_graph order start goal w free))
        (omega (arith, unfinalized-nil (Grid.all_positions w.grid)))

  -- The report of a search that reached the goal carries a route of the goal's cost.
  report-Routed :
      (free : Warehouse.is_traversable w start ≡ true) (at : Position) (st : Search Position)
      (ends : Reaches (cell_query order goal w) start (cell_graph order start goal w free) at st)
      → (r : PathResult) × (report algorithm start goal (reached at st) ≡ ok r) × Routed r ends.cost
  unfolding report
  report-Routed free at st ends =
      let same : at ≡ goal = (position_beq_iff at goal).0 ends.is_goal in
      let (path, returns, route) =
        reconstruct_path-IsRoute (cell_query order goal w) start
          (cell_graph order start goal w free) st ends.costs at ends.cost ends.at_cost in
      (
        found algorithm start goal path st.nodes_expanded,
        ground (arith, ends.at_cost),
        record {
          path = path;
          expanded = st.nodes_expanded;
          is_found = refl;
          route = subst (λ p. IsRoute (open_steps w) start p ends.cost path) same route;
          free = free;
        },
      )

  -- What a queue order by cost plus a consistent heuristic gives.
  pub record Ranked : Type 0 where
    pub heuristic : Heuristic
    pub consistent : IsConsistent heuristic
    pub ranks : (g : ℕ) (p : Position) → (order g p).0 ≡ g + heuristic p goal

  abbrev pub IsLeast : ℕ → Type 0
  IsLeast moves = (n : ℕ) → CellWalk w start n goal → moves ≤ n

  abbrev pub IsCutOff : Type 0
  IsCutOff = (n : ℕ) → ¬ CellWalk w start n goal

  -- A route, the shortest one under a good order, or none, and then there is no walk.
  abbrev pub Outcome : PathResult → Type 0
  Outcome r =
      ((moves : ℕ) × Routed r moves × (Ranked → IsLeast moves)) ⊎ (Unrouted r × (Ranked → IsCutOff))

  rejected :
      (reason : Reason)
      → check_planning_request start goal w ≡ ok (some reason)
      → plan_by algorithm order start goal w ≡ ok (not_found algorithm start goal reason 0)
  unfolding plan_by
  rejected reason h = ground arith

  stays :
      check_planning_request start goal w ≡ ok none
      → (start == goal) ≡ true
      → plan_by algorithm order start goal w ≡ ok (found algorithm start goal (start ∷ []) 0)
  unfolding plan_by
  stays h same = ground arith

  searches :
      (ending : Ending Position) (r : PathResult)
      → check_planning_request start goal w ≡ ok none
      → (start == goal) ≡ false
      → loop (cell_query order goal w) (loop_fuel w) (begin (cell_query order goal w) start)
        ≡ ok ending
      → report algorithm start goal ending ≡ ok r
      → plan_by algorithm order start goal w ≡ ok r
  unfolding plan_by
  searches ending r h other ends says = ground arith

  searched-Outcome :
      check_planning_request start goal w ≡ ok none
      → Warehouse.is_traversable w start ≡ true
      → (start == goal) ≡ false
      → (ending : Ending Position)
      → loop (cell_query order goal w) (loop_fuel w) (begin (cell_query order goal w) start)
        ≡ ok ending
      → (r : PathResult) × (plan_by algorithm order start goal w ≡ ok r) × Outcome r
  unfolding report
  searched-Outcome h free other (reached at st) ends =
      let sound =
        loop-Sound (cell_query order goal w) start (cell_graph order start goal w free)
          (loop_fuel w) (reached at st) ends in
      let (r, says, routed) = report-Routed free at st sound in
      (
        r,
        searches (reached at st) r h other ends says,
        inl (
          sound.cost,
          routed,
          λ ranked n walk.
              loop-Least (cell_query order goal w) start (cell_graph order start goal w free)
                (cell-Consistent order ranked.heuristic ranked.consistent start goal w free
                  ranked.ranks)
                (loop_fuel w) (reached at st) ends sound.cost sound.at_cost n goal
                (CellWalk-Walk walk) ((position_beq_iff goal goal).1 refl),
        ),
      )
  searched-Outcome h free other (exhausted st) ends = (
    not_found algorithm start goal Reason.unreachable st.nodes_expanded,
    searches (exhausted st) _ h other ends refl,
    inr (
      record { reason = Reason.unreachable; expanded = st.nodes_expanded; is_not_found = refl },
      λ ranked n walk. ground (
        arith,
        loop-Least (cell_query order goal w) start (cell_graph order start goal w free)
            (cell-Consistent order ranked.heuristic ranked.consistent start goal w free
              ranked.ranks)
            (loop_fuel w) (exhausted st) ends n goal (CellWalk-Walk walk),
        (position_beq_iff goal goal).1 refl,
      ),
    ),
  )

  -- A request for two cells of the floor is answered.
  pub plan_by-Outcome :
      Warehouse.in_bounds w start ≡ true
      → Warehouse.in_bounds w goal ≡ true
      → (r : PathResult) × (plan_by algorithm order start goal w ≡ ok r) × Outcome r
  unfolding check_planning_request
  plan_by-Outcome inside inside' = elim (Bool-cases (Warehouse.is_traversable w start)) [
    | inr blocked ↦ (
      not_found algorithm start goal Reason.start_blocked 0,
      rejected Reason.start_blocked (ground arith),
      inr (
        record { reason = Reason.start_blocked; expanded = 0; is_not_found = refl },
        λ ranked n walk. ground (arith, (CellWalk-free walk).0),
      ),
    )
    | inl free ↦ elim (Bool-cases (Warehouse.is_traversable w goal)) [
      | inr blocked ↦ (
        not_found algorithm start goal Reason.goal_blocked 0,
        rejected Reason.goal_blocked (ground arith),
        inr (
          record { reason = Reason.goal_blocked; expanded = 0; is_not_found = refl },
          λ ranked n walk. ground (arith, (CellWalk-free walk).1),
        ),
      )
      | inl free' ↦ elim (Eq-cases start goal) [
        | inl (same, test) ↦ (
          found algorithm start goal (start ∷ []) 0,
          stays (ground arith) test,
          inl (
            0,
            record {
              path = start ∷ [];
              expanded = 0;
              is_found = refl;
              route = record {
                first = refl;
                last = ap some same;
                chain = tt;
                moves = refl;
                distinct = (λ m. absurd m, tt);
              };
              free = free;
            },
            λ ranked n walk. omega arith,
          ),
        )
        | inr (_, test) ↦
            let (ending, ends) = search_returns free in
            searched-Outcome (ground arith) free test ending ends
      ]
    ]
  ]
