-- ===== src/Planning/Validation.antt =====
-- The path validator of robotics/planning/validation.py. A problem is a value in place of a message.
use multi_robot_fulfillment.Common.{
  ℕ, ◌+◌, Bool, true, false, not, Option, none, some, List, [], ◌∷◌, ◌++◌, if◌then◌else◌, Result,
  ok, err, Error, length, nat_beq, first?, last?, option_beq, to_set,
}
use multi_robot_fulfillment.Common.Int.{ℤ, beq_ℤ}
use multi_robot_fulfillment.Geometry.{Position, position_eq, is_adjacent_to}
use multi_robot_fulfillment.Warehouse
use multi_robot_fulfillment.Warehouse.{Warehouse}
use multi_robot_fulfillment.Planning.{PathResult, path_cost}

pub data PathProblem : Type 0 where
  carries_path carries_cost unexplained : PathProblem
  empty_path wrong_start wrong_goal repeated_cell wrong_cost : PathProblem
  outside blocked illegal_move : ℕ → PathProblem

abbrev pub problem_if : Bool → PathProblem → List PathProblem
problem_if b p = if b then p ∷ [] else []

abbrev pub is_some {ℓ} : {A : Type ℓ} → Option A → Bool
is_some none = false
is_some (some a) = true

-- `for index, cell in enumerate(path)`
unfoldable pub cell_problems : Warehouse → ℕ → List Position → List PathProblem
cell_problems w index [] = []
cell_problems w index (cell ∷ cells) =
    let rest = cell_problems w (index + 1) cells in
    if not (Warehouse.in_bounds w cell)
    then PathProblem.outside index ∷ rest
    else if not (Warehouse.is_traversable w cell)
    then PathProblem.blocked index ∷ rest
    else rest

-- `for index in range(len(path) - 1)`
unfoldable pub move_problems : ℕ → List Position → List PathProblem
move_problems index [] = []
move_problems index (current ∷ []) = []
move_problems index (current ∷ following ∷ cells) =
    let rest = move_problems (index + 1) (following ∷ cells) in
    if not (is_adjacent_to current following) then PathProblem.illegal_move index ∷ rest else rest

abbrev pub cost_matches : Option ℤ → ℤ → Bool
cost_matches none expected = false
cost_matches (some cost) expected = beq_ℤ cost expected

unfoldable pub success_problems : PathResult → Warehouse → List PathProblem
success_problems r w =
    problem_if (not (option_beq (first? r.path) (some r.start))) PathProblem.wrong_start
    ++ (problem_if (not (option_beq (last? r.path) (some r.goal))) PathProblem.wrong_goal
        ++ (cell_problems w 0 r.path
            ++ (move_problems 0 r.path
                ++ (problem_if (not (nat_beq (length (to_set r.path)) (length r.path)))
                      PathProblem.repeated_cell
                    ++ problem_if (not (cost_matches r.total_cost (path_cost r.path)))
                        PathProblem.wrong_cost))))

unfoldable pub failure_problems : PathResult → List PathProblem
failure_problems r =
    problem_if (not (nat_beq (length r.path) 0)) PathProblem.carries_path
    ++ (problem_if (is_some r.total_cost) PathProblem.carries_cost
        ++ problem_if (not (is_some r.failure_reason)) PathProblem.unexplained)

unfoldable pub find_path_problems : PathResult → Warehouse → List PathProblem
find_path_problems r w =
    if not r.success
    then failure_problems r
    else if nat_beq (length r.path) 0
    then PathProblem.empty_path ∷ []
    else success_problems r w

unfoldable pub is_valid_path : PathResult → Warehouse → Bool
is_valid_path r w = nat_beq (length (find_path_problems r w)) 0

unfoldable pub assert_valid_path : PathResult → Warehouse → Result (Unit {0})
assert_valid_path r w = if not (is_valid_path r w) then err Error.path_validation_error else ok tt
