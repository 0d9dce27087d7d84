-- ===== src/Planning/Validated.antt =====
-- Every result of the planners passes the path validator of robotics/planning/validation.py.
use multi_robot_fulfillment.Common.{
  ℕ, ◌+◌, ◌≡◌, inl, inr, refl, true, List, [], ◌∷◌, ◌∈◌, arith, ok, to_set, contains, contains→mem,
  Bool-cases, subst, sym, Eq,
}
use multi_robot_fulfillment.Geometry.{Position, position_eq}
use multi_robot_fulfillment.Warehouse
use multi_robot_fulfillment.Warehouse.{Warehouse}
use multi_robot_fulfillment.Warehouse.Neighbors.{
  open_steps, mem-open_steps, is_traversable-in_bounds,
}
use multi_robot_fulfillment.Search.Route.{IsRoute, Chain, Distinct}
use multi_robot_fulfillment.Planning.{Algorithm, Reason, PathResult, found, not_found, plan_by}
use multi_robot_fulfillment.Planning.Validation.{
  cell_problems, move_problems, success_problems, failure_problems, find_path_problems,
  is_valid_path, assert_valid_path,
}
use multi_robot_fulfillment.Planning.Answers.{Outcome, plan_by-Outcome}

module _ {S : Type 0} ⦃e : Eq S⦄ where
  mem-to_set : (xs : List S) (x : S) → x ∈ to_set xs → x ∈ xs
  mem-to_set [] x m = m
  mem-to_set (y ∷ ys) x m = elim (Bool-cases (contains (to_set ys) y)) [
    | inl h ↦ ground (arith, mem-to_set ys x)
    | inr h ↦ ground (arith, mem-to_set ys x)
  ]

  -- `len(set(xs)) == len(xs)` when nothing stands twice.
  to_set-Distinct : (xs : List S) → Distinct xs → to_set xs ≡ xs
  to_set-Distinct [] d = refl
  to_set-Distinct (x ∷ xs) (new, d) = elim (Bool-cases (contains (to_set xs) x)) [
    | inl h ↦ absurd (new (mem-to_set xs x (contains→mem (to_set xs) x h)))
    | inr h ↦ ground (arith, to_set-Distinct xs d)
  ]

no_cell_problems :
    (w : Warehouse) (index : ℕ) (p : Position) (ps : List Position)
    → Warehouse.is_traversable w p ≡ true
    → Chain (open_steps w) (p ∷ ps)
    → cell_problems w index (p ∷ ps) ≡ []
unfolding cell_problems
no_cell_problems w index p [] free ch = ground (arith, is_traversable-in_bounds w p free)
no_cell_problems w index p (q ∷ qs) free (m, ch) =
    let free' = ((mem-open_steps w p q).0 m).1 in
    ground (arith, is_traversable-in_bounds w p free, no_cell_problems w (index + 1) q qs free' ch)

no_move_problems :
    (w : Warehouse) (index : ℕ) (path : List Position)
    → Chain (open_steps w) path
    → move_problems index path ≡ []
unfolding move_problems
no_move_problems w index [] ch = refl
no_move_problems w index (p ∷ []) ch = refl
no_move_problems w index (p ∷ q ∷ qs) (m, ch) =
    let near = ((mem-open_steps w p q).0 m).0 in
    ground (arith, no_move_problems w (index + 1) (q ∷ qs) ch)

found_passes :
    (algorithm : Algorithm) (start goal : Position) (w : Warehouse) (n expanded : ℕ)
    (path : List Position)
    → Warehouse.is_traversable w start ≡ true
    → IsRoute (open_steps w) start goal n path
    → find_path_problems (found algorithm start goal path expanded) w ≡ []
unfolding find_path_problems success_problems found
found_passes algorithm start goal w n expanded [] free route = absurd (ground (arith, route.first))
found_passes algorithm start goal w n expanded (p ∷ ps) free route =
    let same : p ≡ start = ground (arith, route.first) in
    ground (
      arith,
      (position_eq.beq_iff start start).1 refl,
      (position_eq.beq_iff goal goal).1 refl,
      route.first,
      route.last,
      route.moves,
      to_set-Distinct (p ∷ ps) route.distinct,
      no_cell_problems w 0 p ps (rw same free) route.chain,
      no_move_problems w 0 (p ∷ ps) route.chain,
    )

not_found_passes :
    (algorithm : Algorithm) (start goal : Position) (w : Warehouse) (reason : Reason) (expanded : ℕ)
    → find_path_problems (not_found algorithm start goal reason expanded) w ≡ []
unfolding find_path_problems failure_problems not_found
not_found_passes algorithm start goal w reason expanded = refl

module _ (algorithm : Algorithm) (order : ℕ → Position → ℕ × ℕ) (start goal : Position)
    (w : Warehouse) where
  Outcome-passes :
      (r : PathResult) → Outcome algorithm order start goal w r → find_path_problems r w ≡ []
  Outcome-passes r (inl (moves, routed, _)) =
      subst (λ s. find_path_problems s w ≡ []) (sym routed.is_found)
        (found_passes algorithm start goal w moves routed.expanded routed.path routed.free
          routed.route)
  Outcome-passes r (inr (unrouted, _)) =
      subst (λ s. find_path_problems s w ≡ []) (sym unrouted.is_not_found)
        (not_found_passes algorithm start goal w unrouted.reason unrouted.expanded)

-- Whatever the order of the queue, and so under every heuristic, the body that A* and Dijkstra share
-- returns for two cells of the floor, and the validator finds no problem in the result: a path starts
-- and ends where it must, stays on free cells, moves to adjacent ones, repeats none and has the
-- stated cost; a failure carries a reason and neither path nor cost.
pub plan_by_passes :
    (algorithm : Algorithm) (order : ℕ → Position → ℕ × ℕ) (start goal : Position) (w : Warehouse)
    → Warehouse.in_bounds w start ≡ true
    → Warehouse.in_bounds w goal ≡ true
    → (r : PathResult) × (plan_by algorithm order start goal w ≡ ok r)
      × (find_path_problems r w ≡ [])
      × (assert_valid_path r w ≡ ok tt)
unfolding assert_valid_path is_valid_path
plan_by_passes algorithm order start goal w inside inside' =
    let (r, returns, outcome) = plan_by-Outcome algorithm order start goal w inside inside' in
    let passes = Outcome-passes algorithm order start goal w r outcome in
    (r, returns, passes, ground (arith, passes))
