-- ===== src/Geometry.antt =====
-- Cells and directions, of robotics/warehouse/grid.py, and the Manhattan heuristic of
-- robotics/planning/heuristics.py. Coordinates are Python integers and may leave the floor.
pub mod Laws
mod Tests
use multi_robot_fulfillment.Common.{
  ℕ, ◌+◌, ◌≡◌, ◌↔◌, Bool, true, ◌&&◌, List, [], ◌∷◌, arith, Eq, nat_beq,
}
use multi_robot_fulfillment.Common.Int.{ℤ, pos, negsuc, ◌+ℤ◌, dist_ℤ, beq_ℤ}

pub record Position : Type 0 where
  pub row : ℤ
  pub col : ℤ

unfoldable pub position_beq : Position → Position → Bool
position_beq a b = beq_ℤ a.row b.row && beq_ℤ a.col b.col

pub position_beq_iff : (a b : Position) → (position_beq a b ≡ true) ↔ (a ≡ b)
unfolding position_beq
position_beq_iff a b = ground arith

instance abbrev pub position_eq : Eq Position
position_eq = record { beq = position_beq; beq_iff = position_beq_iff }

unfoldable pub manhattan_distance_to : Position → Position → ℕ
manhattan_distance_to a b = dist_ℤ a.row b.row + dist_ℤ a.col b.col

unfoldable pub is_adjacent_to : Position → Position → Bool
unfolding manhattan_distance_to
is_adjacent_to a b = nat_beq (manhattan_distance_to a b) 1

pub data Direction : Type 0 where
  up down left right : Direction

abbrev pub row_delta : Direction → ℤ
row_delta Direction.up = negsuc 0
row_delta Direction.down = pos 1
row_delta Direction.left = pos 0
row_delta Direction.right = pos 0

abbrev pub col_delta : Direction → ℤ
col_delta Direction.up = pos 0
col_delta Direction.down = pos 0
col_delta Direction.left = negsuc 0
col_delta Direction.right = pos 1

unfoldable pub apply_to : Direction → Position → Position
unfolding ◌+ℤ◌
apply_to d p = record { row = p.row +ℤ row_delta d; col = p.col +ℤ col_delta d }

-- `for direction in Direction`: the members of an enum come in the order of their declaration.
abbrev pub directions : List Direction
directions = Direction.up ∷ Direction.down ∷ Direction.left ∷ Direction.right ∷ []

-- `MOVE_COST`: costs are whole numbers of moves, which doubles hold exactly.
abbrev pub move_cost : ℕ
move_cost = 1

-- A heuristic takes two cells and estimates the number of moves between them.
abbrev pub Heuristic : Type 0
Heuristic = Position → Position → ℕ

unfoldable pub manhattan_distance : Heuristic
unfolding manhattan_distance_to
manhattan_distance a b = manhattan_distance_to a b

unfoldable pub zero_heuristic : Heuristic
zero_heuristic a b = 0
