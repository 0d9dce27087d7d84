-- ===== src/Planning/Sound.antt =====
-- What the path validator of robotics/planning/validation.py guarantees of a result that it passes.
use multi_robot_fulfillment.Common.{
  ℕ, suc, ◌+◌, ◌≤◌, ◌≡◌, inl, inr, refl, Bool, true, not, Option, none, some, List, [], ◌∷◌, ◌++◌,
  ◌∈◌, arith, length, first?, last?, to_set, contains, contains→mem, nat_beq_iff, option_beq,
  mem→contains, Bool-cases, ap, Eq, ◌∙◌,
}
use multi_robot_fulfillment.Common.Int.{ℤ, pos, beq_ℤ_iff}
use multi_robot_fulfillment.Geometry.{Position, position_eq, is_adjacent_to}
use multi_robot_fulfillment.Warehouse
use multi_robot_fulfillment.Warehouse.{Warehouse}
use multi_robot_fulfillment.Search.Route.{Distinct}
use multi_robot_fulfillment.Planning.{PathResult, path_cost}
use multi_robot_fulfillment.Planning.Validation.{
  PathProblem, problem_if, cell_problems, move_problems, success_problems, find_path_problems,
  cost_matches,
}
use multi_robot_fulfillment.Planning.Cells.{FreeMoves, IsPath}

both_empty : {A : Type 0} (xs ys : List A) → xs ++ ys ≡ [] → (xs ≡ []) × (ys ≡ [])
both_empty [] ys h = (refl, h)
both_empty (x ∷ xs) ys h = absurd (ground arith)

no_problem : (b : Bool) (p : PathProblem) → problem_if (not b) p ≡ [] → b ≡ true
no_problem b p h = ground arith

same_option : {A : Type 0} ⦃e : Eq A⦄ (a b : Option A) → option_beq a b ≡ true → a ≡ b
same_option none none h = refl
same_option none (some b) h = absurd (ground arith)
same_option (some a) none h = absurd (ground arith)
same_option ⦃e⦄ (some a) (some b) h = ap some ((e.beq_iff a b).0 h)

module _ {S : Type 0} ⦃e : Eq S⦄ where
  length-to_set : (xs : List S) → length (to_set xs) ≤ length xs
  length-to_set [] = omega arith
  length-to_set (x ∷ xs) = ground (arith, length-to_set xs)

  mem-into_set : (xs : List S) (x : S) → x ∈ xs → x ∈ to_set xs
  mem-into_set [] x m = m
  mem-into_set (y ∷ ys) x m = elim (Bool-cases (contains (to_set ys) y)) [
    | inl h ↦ ground (arith, mem-into_set ys x, contains→mem (to_set ys) y)
    | inr h ↦ ground (arith, mem-into_set ys x)
  ]

  -- `len(set(xs)) == len(xs)` only when nothing stands twice.
  Distinct-to_set : (xs : List S) → length (to_set xs) ≡ length xs → Distinct xs
  Distinct-to_set [] h = tt
  Distinct-to_set (x ∷ xs) h = elim (Bool-cases (contains (to_set xs) x)) [
    | inl old ↦ absurd (ground (arith, length-to_set xs))
    | inr new ↦ (
      λ m. ground (arith, mem→contains (to_set xs) x (mem-into_set xs x m)),
      Distinct-to_set xs (ground arith),
    )
  ]

pub free_cell :
    (w : Warehouse) (i : ℕ) (p : Position) (ps : List Position)
    → cell_problems w i (p ∷ ps) ≡ []
    → (Warehouse.is_traversable w p ≡ true) × (cell_problems w (i + 1) ps ≡ [])
unfolding cell_problems
free_cell w i p ps h = (ground arith, ground arith)

pub legal_step :
    (i : ℕ) (p q : Position) (ps : List Position)
    → move_problems i (p ∷ q ∷ ps) ≡ []
    → (is_adjacent_to p q ≡ true) × (move_problems (i + 1) (q ∷ ps) ≡ [])
unfolding move_problems
legal_step i p q ps h = (ground arith, ground arith)

-- What the two loops over the path check.
checked-FreeMoves :
    (w : Warehouse) (i j : ℕ) (path : List Position)
    → cell_problems w i path ≡ []
    → move_problems j path ≡ []
    → FreeMoves w path
checked-FreeMoves w i j [] cells moves = tt
checked-FreeMoves w i j (p ∷ []) cells moves = (free_cell w i p [] cells).0
checked-FreeMoves w i j (p ∷ q ∷ ps) cells moves =
    let (free, cells') = free_cell w i p (q ∷ ps) cells in
    let (near, moves') = legal_step j p q ps moves in
    (free, near, checked-FreeMoves w (i + 1) (j + 1) (q ∷ ps) cells' moves')

-- The single checks of a successful result.
pub record Passes (r : PathResult) (w : Warehouse) : Type 0 where
  pub first : first? r.path ≡ some r.start
  pub last : last? r.path ≡ some r.goal
  pub cells : cell_problems w 0 r.path ≡ []
  pub moves : move_problems 0 r.path ≡ []
  pub no_repeat : length (to_set r.path) ≡ length r.path
  pub cost : cost_matches r.total_cost (path_cost r.path) ≡ true

pub passed_checks : (r : PathResult) (w : Warehouse) → success_problems r w ≡ [] → Passes r w
unfolding success_problems
passed_checks r w h =
    let (first, h₁) = both_empty _ _ h in
    let (last, h₂) = both_empty _ _ h₁ in
    let (cells, h₃) = both_empty _ _ h₂ in
    let (moves, h₄) = both_empty _ _ h₃ in
    let (no_repeat, cost) = both_empty _ _ h₄ in
    record {
      first = same_option (first? r.path) (some r.start) (no_problem _ _ first);
      last = same_option (last? r.path) (some r.goal) (no_problem _ _ last);
      cells = cells;
      moves = moves;
      no_repeat = (nat_beq_iff _ _).0 (no_problem _ _ no_repeat);
      cost = no_problem _ _ cost;
    }

-- A path with a first cell is one cell longer than its moves.
moves_of :
    (path : List Position) (start : Position)
    → first? path ≡ some start
    → (n : ℕ) × (length path ≡ suc n)
moves_of [] start first = absurd (ground (arith, first))
moves_of (p ∷ ps) start first = (length ps, refl)

exact_cost :
    (cost : Option ℤ) (path : List Position) (n : ℕ)
    → length path ≡ suc n
    → cost_matches cost (path_cost path) ≡ true
    → cost ≡ some (pos n)
exact_cost none path n l h = absurd (ground arith)
exact_cost (some z) path n l h =
    let same = (beq_ℤ_iff z (path_cost path)).0 h in
    let moves : path_cost path ≡ pos n = ground arith in ap some (same ∙ moves)

pub passed :
    (r : PathResult) (w : Warehouse)
    → r.success ≡ true
    → find_path_problems r w ≡ []
    → success_problems r w ≡ []
unfolding find_path_problems
passed r w success h = ground arith

-- A successful result in which the validator finds no problem, whoever made it, carries a path: its
-- cells lead in their order from its start to its goal, each is free and adjacent to the one before it,
-- none stands twice, and the cost is the number of moves.
pub find_path_problems_sound :
    (r : PathResult) (w : Warehouse)
    → r.success ≡ true
    → find_path_problems r w ≡ []
    → (n : ℕ) × IsPath w r.start r.goal n r.path × (r.total_cost ≡ some (pos n))
find_path_problems_sound r w success h =
    let checks = passed_checks r w (passed r w success h) in
    let (n, l) = moves_of r.path r.start checks.first in
    (
      n,
      record {
        first = checks.first;
        last = checks.last;
        legal = checked-FreeMoves w 0 0 r.path checks.cells checks.moves;
        cells = l;
        distinct = Distinct-to_set r.path checks.no_repeat;
      },
      exact_cost r.total_cost r.path n l checks.cost,
    )
