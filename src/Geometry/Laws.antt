-- ===== src/Geometry/Laws.antt =====
-- Steps between cells: the four directions give exactly the cells at distance one, and the
-- Manhattan distance is a metric that changes by at most one with each step.
use multi_robot_fulfillment.Common.{◌+◌, ◌≤◌, ◌≡◌, true, arith, ◌∈◌, map}
use multi_robot_fulfillment.Geometry.{
  Position, manhattan_distance_to, is_adjacent_to, Direction, apply_to, directions,
  manhattan_distance,
}

pub is_adjacent_to-apply_to :
    (d : Direction) (p : Position) → is_adjacent_to p (apply_to d p) ≡ true
unfolding is_adjacent_to apply_to
is_adjacent_to-apply_to d p = ground arith

-- Every adjacent cell is a step away in some direction.
pub direction_of_adjacent :
    (p q : Position) → is_adjacent_to p q ≡ true → q ∈ map (λ d. apply_to d p) directions
unfolding is_adjacent_to apply_to
direction_of_adjacent p q h = ground arith

pub is_adjacent_to_symm : (p q : Position) → is_adjacent_to p q ≡ is_adjacent_to q p
unfolding is_adjacent_to
is_adjacent_to_symm p q = ground arith

pub manhattan_triangle :
    (a b c : Position)
    → manhattan_distance_to a c ≤ manhattan_distance_to a b + manhattan_distance_to b c
unfolding manhattan_distance_to
manhattan_triangle a b c = omega arith

pub adjacent-distance : (p q : Position) → is_adjacent_to p q ≡ true → manhattan_distance_to p q ≡ 1
unfolding is_adjacent_to
adjacent-distance p q h = ground arith

-- One step lowers the estimate by at most one: the heuristic is consistent.
pub manhattan_distance_consistent :
    (p q goal : Position)
    → is_adjacent_to p q ≡ true
    → manhattan_distance p goal ≤ 1 + manhattan_distance q goal
unfolding manhattan_distance
manhattan_distance_consistent p q goal h =
    omega (arith, manhattan_triangle p q goal, adjacent-distance p q h)

pub manhattan_distance_self : (p : Position) → manhattan_distance p p ≡ 0
unfolding manhattan_distance
manhattan_distance_self p = omega arith

pub zero-distance : (p q : Position) → manhattan_distance_to p q ≡ 0 → p ≡ q
unfolding manhattan_distance_to
zero-distance p q h = ground arith

pub same-distance : (p q : Position) → p ≡ q → manhattan_distance_to p q ≡ 0
unfolding manhattan_distance_to
same-distance p q same = ground arith
