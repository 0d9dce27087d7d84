-- ===== src/Execution/Refusals.antt =====
-- Why a route is not driven: `_resolve_path` and `_preflight` of robotics/execution/route_executor.py.
use multi_robot_fulfillment.Common.{
  ℕ, suc, ◌≡◌, ◌≢◌, ◌⊎◌, inl, inr, refl, sym, subst, ap, false, some, List, [], ◌∷◌, ◌++◌, ◌∈◌,
  arith, length, to_set, contains, contains→mem, nat_beq_iff, Eq, Eq-cases, Option-cases,
  Bool-cases,
}
use multi_robot_fulfillment.Geometry.{Position, position_eq, is_adjacent_to}
use multi_robot_fulfillment.Planning.{PathResult}
use multi_robot_fulfillment.Search.Route.{Distinct}
use multi_robot_fulfillment.Robot.{Robot, RobotStatus}
use multi_robot_fulfillment.Execution.{
  Route, StopReason, Resolved, resolve_path, check_cells, first_gap, preflight,
}

-- A list of cells that is no walkable route.
pub data IsBroken (cells : List Position) : Type 0 where
  no_cells : cells ≡ [] → IsBroken cells
  gap :
      (front back : List Position) (p q : Position)
      → cells ≡ front ++ (p ∷ q ∷ back)
      → is_adjacent_to p q ≡ false
      → IsBroken cells
  repeated : ¬ Distinct cells → IsBroken cells

pub data IsUnfit : Route → Type 0 where
  no_route : (p : PathResult) → p.success ≡ false → IsUnfit (Route.planned p)
  broken_path : (p : PathResult) → IsBroken p.path → IsUnfit (Route.planned p)
  broken_cells : (cells : List Position) → IsBroken cells → IsUnfit (Route.cells cells)

module _ {S : Type 0} ⦃e : Eq S⦄ where
  mem-from_set : (xs : List S) (x : S) → x ∈ to_set xs → x ∈ xs
  mem-from_set [] x m = m
  mem-from_set (y ∷ ys) x m = elim (Bool-cases (contains (to_set ys) y)) [
    | inl h ↦ ground (arith, h, m, mem-from_set ys x)
    | inr h ↦ ground (arith, h, m, mem-from_set ys x)
  ]

  -- Without a repeat the set has as many elements as the list.
  length-to_set-Distinct : (xs : List S) → Distinct xs → length (to_set xs) ≡ length xs
  length-to_set-Distinct [] different = refl
  length-to_set-Distinct (x ∷ xs) (out, different) = elim (Bool-cases (contains (to_set xs) x)) [
    | inl old ↦ absurd (out (mem-from_set xs x (contains→mem (to_set xs) x old)))
    | inr new ↦ ground (arith, new, length-to_set-Distinct xs different)
  ]

pub record Gap (cells : List Position) : Type 0 where
  pub front : List Position
  pub back : List Position
  pub p : Position
  pub q : Position
  pub split : cells ≡ front ++ (p ∷ q ∷ back)
  pub apart : is_adjacent_to p q ≡ false

first_gap-some : (i k : ℕ) (cells : List Position) → first_gap i cells ≡ some k → Gap cells
unfolding first_gap
first_gap-some i k [] h = absurd (ground arith)
first_gap-some i k (p ∷ []) h = absurd (ground arith)
first_gap-some i k (p ∷ q ∷ rest) h = elim (Bool-cases (is_adjacent_to p q)) [
  | inr apart ↦ record { front = []; back = rest; p = p; q = q; split = refl; apart = apart }
  | inl near ↦
      let later = first_gap-some (suc i) k (q ∷ rest) (ground (arith, h, near)) in
      record {
        front = p ∷ later.front;
        back = later.back;
        p = later.p;
        q = later.q;
        split = ap (λ cells. p ∷ cells) later.split;
        apart = later.apart;
      }
]

check_cells-IsBroken :
    (cells : List Position) (reason : StopReason)
    → check_cells cells ≡ Resolved.rejection reason
    → IsBroken cells
unfolding check_cells
check_cells-IsBroken [] reason h = no_cells refl
check_cells-IsBroken (cell ∷ rest) reason h = elim (Option-cases (first_gap 0 (cell ∷ rest))) [
  | inr (k, found) ↦
      let g = first_gap-some 0 k (cell ∷ rest) found in gap g.front g.back g.p g.q g.split g.apart
  | inl walkable ↦ repeated (λ different.
      let same = length-to_set-Distinct (cell ∷ rest) different in
      let test = (nat_beq_iff (length (to_set (cell ∷ rest))) (length (cell ∷ rest))).1 same in
      ground (arith, h, walkable, test))
]

-- A route is rejected only for a cause that its planner's result or its cells show.
pub rejection-IsUnfit :
    (route : Route) (reason : StopReason)
    → resolve_path route ≡ Resolved.rejection reason
    → IsUnfit route
unfolding resolve_path
rejection-IsUnfit (Route.planned p) reason h = elim (Bool-cases p.success) [
  | inr missed ↦ no_route p missed
  | inl found ↦ broken_path p (check_cells-IsBroken p.path reason (ground (arith, h, found)))
]
rejection-IsUnfit (Route.cells cells) reason h =
    broken_cells cells (check_cells-IsBroken cells reason h)

-- The causes for which a robot is not moved, with the reason of each.
pub data IsRefused (r : Robot) (route : Route) : StopReason → Type 0 where
  unfit :
      (reason : StopReason)
      → resolve_path route ≡ Resolved.rejection reason
      → IsUnfit route
      → IsRefused r route reason
  offline : r.status ≡ RobotStatus.offline → IsRefused r route StopReason.robot_offline
  elsewhere :
      (start : Position) (rest : List Position)
      → resolve_path route ≡ Resolved.ready (start ∷ rest)
      → start ≢ r.position
      → IsRefused r route StopReason.wrong_start

preflight_cases :
    (r : Robot) (first : Position) (reason : StopReason)
    → preflight r first ≡ some reason
    → (reason ≡ StopReason.robot_offline) × (r.status ≡ RobotStatus.offline)
      ⊎ (reason ≡ StopReason.wrong_start) × (first ≢ r.position)
unfolding preflight
preflight_cases r first reason h = elim (Eq-cases first r.position) [
  | inl (same, test) ↦ inl (ground (arith, h, test), ground (arith, h, test))
  | inr (other, test) ↦ ground (arith, h, test, other)
]

pub preflight-IsRefused :
    (r : Robot) (route : Route) (start : Position) (rest : List Position) (reason : StopReason)
    → resolve_path route ≡ Resolved.ready (start ∷ rest)
    → preflight r start ≡ some reason
    → IsRefused r route reason
preflight-IsRefused r route start rest reason ready h = elim (preflight_cases r start reason h) [
  | inl (same, off) ↦ subst (IsRefused r route) (sym same) (offline off)
  | inr (same, other) ↦ subst (IsRefused r route) (sym same) (elsewhere start rest ready other)
]
