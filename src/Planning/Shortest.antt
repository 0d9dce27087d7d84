-- ===== src/Planning/Shortest.antt =====
-- A* and Dijkstra return shortest routes: the functions `plan` of astar.py and dijkstra.py.
use multi_robot_fulfillment.Common.{
  ℕ, suc, ◌+◌, ◌≤◌, ◌≡◌, ◌⊎◌, inl, inr, refl, true, false, none, some, List, [], ◌∷◌, arith, ok,
  err, Error, length, last?, Bool-cases, subst, ap, sym,
}
use multi_robot_fulfillment.Common.Int.{pos}
use multi_robot_fulfillment.Geometry.{Position, Heuristic, zero_heuristic}
use multi_robot_fulfillment.Warehouse
use multi_robot_fulfillment.Warehouse.{Warehouse}
use multi_robot_fulfillment.Warehouse.Neighbors.{open_steps, mem-open_steps}
use multi_robot_fulfillment.Search.Route.{IsRoute, Chain}
use multi_robot_fulfillment.Planning.{
  Algorithm, PathResult, found, not_found, plan_by, plan_astar, plan_dijkstra, astar_order,
  dijkstra_order, check_planning_request,
}
use multi_robot_fulfillment.Planning.Cells.{
  CellWalk, stand, move, IsPath, IsRoute-IsPath, IsConsistent, zero_heuristic-IsConsistent,
}
use multi_robot_fulfillment.Planning.Answers.{Routed, Ranked, plan_by-Outcome}

-- The cells of the result are a path of the stated cost, and no walk to the goal is shorter.
pub record IsShortest (w : Warehouse) (start goal : Position) (r : PathResult) : Type 0 where
  pub success : r.success ≡ true
  pub moves : ℕ
  pub walk : CellWalk w start moves goal
  pub cost : r.total_cost ≡ some (pos moves)
  pub path : IsPath w start goal moves r.path
  pub least : (n : ℕ) → CellWalk w start n goal → moves ≤ n

-- The result reports a failure, and there is no walk to the goal.
pub record IsUnreachable (w : Warehouse) (start goal : Position) (r : PathResult) : Type 0 where
  pub failure : r.success ≡ false
  pub no_cost : r.total_cost ≡ none
  pub no_walk : (n : ℕ) → ¬ CellWalk w start n goal

-- A chain of steps prolongs a walk.
walk_on :
    (w : Warehouse) (start goal p : Position) (ps : List Position) (n : ℕ)
    → CellWalk w start n p
    → Chain (open_steps w) (p ∷ ps)
    → last? (p ∷ ps) ≡ some goal
    → CellWalk w start (n + length ps) goal
walk_on w start goal p [] n walk ch l =
    let same : p ≡ goal = ground arith in
    let none_more : n ≡ n + 0 = omega arith in
    subst (λ k. CellWalk w start k goal) none_more (subst (CellWalk w start n) same walk)
walk_on w start goal p (q ∷ qs) n walk (m, ch) l =
    let (near, free) = (mem-open_steps w p q).0 m in
    let shift : suc n + length qs ≡ n + suc (length qs) = omega arith in
    subst (λ k. CellWalk w start k goal) shift
      (walk_on w start goal q qs (suc n) (move walk near free) ch l)

pub IsRoute-CellWalk :
    (w : Warehouse) (start goal : Position) (n : ℕ) (path : List Position)
    → Warehouse.is_traversable w start ≡ true
    → IsRoute (open_steps w) start goal n path
    → CellWalk w start n goal
IsRoute-CellWalk w start goal n [] free route = absurd (ground (arith, route.first))
IsRoute-CellWalk w start goal n (p ∷ ps) free route =
    let same : start ≡ p = ground (arith, route.first) in
    let length_lem : 0 + length ps ≡ n = omega (arith, route.moves) in
    subst (λ k. CellWalk w start k goal) length_lem
      (walk_on w start goal p ps 0 (subst (CellWalk w start 0) same (stand free)) route.chain
        route.last)

module _ (algorithm : Algorithm) (order : ℕ → Position → ℕ × ℕ) (start goal : Position)
    (w : Warehouse) where
  Routed-IsShortest :
      (r : PathResult) (moves : ℕ)
      → Routed algorithm order start goal w r moves
      → ((n : ℕ) → CellWalk w start n goal → moves ≤ n)
      → IsShortest w start goal r
  unfolding found
  Routed-IsShortest r moves routed least = record {
    success = ap (λ s. s.success) routed.is_found;
    moves = moves;
    walk = IsRoute-CellWalk w start goal moves routed.path routed.free routed.route;
    cost = ground (arith, routed.is_found, routed.route.moves);
    path =
        subst (IsPath w start goal moves) (sym (ap (λ s. s.path) routed.is_found))
          (IsRoute-IsPath w start goal moves routed.path routed.free routed.route);
    least = least;
  }

  best_answer :
      Ranked algorithm order start goal w
      → Warehouse.in_bounds w start ≡ true
      → Warehouse.in_bounds w goal ≡ true
      → (r : PathResult) × (plan_by algorithm order start goal w ≡ ok r)
        × (IsShortest w start goal r ⊎ IsUnreachable w start goal r)
  unfolding not_found
  best_answer ranked inside inside' =
      let (r, returns, outcome) = plan_by-Outcome algorithm order start goal w inside inside' in
      (
        r,
        returns,
        elim outcome [
          | inl (moves, routed, least) ↦ inl (Routed-IsShortest r moves routed (least ranked))
          | inr (unrouted, cut_off) ↦ inr (record {
            failure = ap (λ s. s.success) unrouted.is_not_found;
            no_cost = ap (λ s. s.total_cost) unrouted.is_not_found;
            no_walk = cut_off ranked;
          })
        ],
      )

-- A* under any consistent heuristic, asked for two cells of the floor, returns. If the goal can be
-- reached, the cells of the result are, in order, a path from the start to the goal over adjacent free
-- cells with none twice, its cost is its number of moves, and no walk is shorter; the result is a
-- failure only if there is no walk.
pub plan_astar-IsShortest :
    (heuristic : Heuristic) (start goal : Position) (w : Warehouse)
    → IsConsistent heuristic
    → Warehouse.in_bounds w start ≡ true
    → Warehouse.in_bounds w goal ≡ true
    → (r : PathResult) × (plan_astar heuristic start goal w ≡ ok r)
      × (IsShortest w start goal r ⊎ IsUnreachable w start goal r)
unfolding plan_astar
plan_astar-IsShortest heuristic start goal w c =
    best_answer Algorithm.astar (astar_order heuristic goal) start goal w
      (record { heuristic = heuristic; consistent = c; ranks = λ g p. refl })

-- Dijkstra, asked for two cells of the floor, returns. If the goal can be reached, the cells of the
-- result are, in order, a path from the start to the goal over adjacent free cells with none twice, its
-- cost is its number of moves, and no walk is shorter; the result is a failure only if there is no walk.
pub plan_dijkstra-IsShortest :
    (start goal : Position) (w : Warehouse)
    → Warehouse.in_bounds w start ≡ true
    → Warehouse.in_bounds w goal ≡ true
    → (r : PathResult) × (plan_dijkstra start goal w ≡ ok r)
      × (IsShortest w start goal r ⊎ IsUnreachable w start goal r)
unfolding plan_dijkstra zero_heuristic
plan_dijkstra-IsShortest start goal w =
    best_answer Algorithm.dijkstra dijkstra_order start goal w (record {
      heuristic = zero_heuristic;
      consistent = zero_heuristic-IsConsistent;
      ranks = λ g p. omega arith;
    })

-- Whatever the heuristic, consistent or not, A* raises InvalidPositionError exactly when the start or
-- the goal is off the floor, and else returns a result.
pub plan_astar_raises :
    (heuristic : Heuristic) (start goal : Position) (w : Warehouse)
    → ((plan_astar heuristic start goal w ≡ err Error.invalid_position)
        × ((Warehouse.in_bounds w start ≡ false) ⊎ (Warehouse.in_bounds w goal ≡ false)))
      ⊎ ((r : PathResult) × (plan_astar heuristic start goal w ≡ ok r)
          × (Warehouse.in_bounds w start ≡ true)
          × (Warehouse.in_bounds w goal ≡ true))
unfolding plan_astar plan_by check_planning_request
plan_astar_raises heuristic start goal w = elim (Bool-cases (Warehouse.in_bounds w start)) [
  | inr outside ↦ inl (ground arith, inl outside)
  | inl inside ↦ elim (Bool-cases (Warehouse.in_bounds w goal)) [
    | inr outside ↦ inl (ground arith, inr outside)
    | inl inside' ↦
        let (r, returns, _) =
          plan_by-Outcome Algorithm.astar (astar_order heuristic goal) start goal w inside
            inside' in
        inr (r, returns, inside, inside')
  ]
]
