-- ===== src/Planning/Agreement.antt =====
-- How A* and Dijkstra relate: astar.py says that both return paths of the same cost.
use multi_robot_fulfillment.Common.{◌≡◌, ◌⊎◌, inl, inr, true, arith, ok}
use multi_robot_fulfillment.Geometry.{Position, position_eq, Heuristic}
use multi_robot_fulfillment.Warehouse
use multi_robot_fulfillment.Warehouse.{Warehouse}
use multi_robot_fulfillment.Planning.{PathResult, plan_astar, plan_dijkstra}
use multi_robot_fulfillment.Planning.Cells.{IsConsistent}
use multi_robot_fulfillment.Planning.Shortest.{
  IsShortest, IsUnreachable, plan_astar-IsShortest, plan_dijkstra-IsShortest,
}

same_answer :
    (w : Warehouse) (start goal : Position) (r s : PathResult)
    → IsShortest w start goal r ⊎ IsUnreachable w start goal r
    → IsShortest w start goal s ⊎ IsUnreachable w start goal s
    → (r.success ≡ s.success) × (r.total_cost ≡ s.total_cost)
same_answer w start goal r s (inl a) (inl b) =
    let le = a.least b.moves b.walk in
    let ge = b.least a.moves a.walk in
    let same : a.moves ≡ b.moves = omega arith in
    (ground (arith, a.success, b.success), ground (arith, a.cost, b.cost))
same_answer w start goal r s (inl a) (inr b) = absurd (b.no_walk a.moves a.walk)
same_answer w start goal r s (inr a) (inl b) = absurd (a.no_walk b.moves b.walk)
same_answer w start goal r s (inr a) (inr b) =
    (ground (arith, a.failure, b.failure), ground (arith, a.no_cost, b.no_cost))

-- Asked for the same two cells of the floor, A* under a consistent heuristic and Dijkstra both
-- return, and agree on whether there is a route and on its cost.
pub plan_astar-plan_dijkstra :
    (heuristic : Heuristic) (start goal : Position) (w : Warehouse)
    → IsConsistent heuristic
    → Warehouse.in_bounds w start ≡ true
    → Warehouse.in_bounds w goal ≡ true
    → (r s : PathResult) × (plan_astar heuristic start goal w ≡ ok r)
      × (plan_dijkstra start goal w ≡ ok s)
      × (r.success ≡ s.success)
      × (r.total_cost ≡ s.total_cost)
plan_astar-plan_dijkstra heuristic start goal w c inside inside' =
    let (r, returns, answer) = plan_astar-IsShortest heuristic start goal w c inside inside' in
    let (s, returns', answer') = plan_dijkstra-IsShortest start goal w inside inside' in
    let (same, cost) = same_answer w start goal r s answer answer' in
    (r, s, returns, returns', same, cost)
