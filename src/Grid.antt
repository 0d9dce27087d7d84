-- ===== src/Grid.antt =====
-- `class Grid` of robotics/warehouse/grid.py: a rectangle of cells, each free or blocked. The set of
-- blocked cells is a list that holds no cell twice.
pub mod Laws
use multi_robot_fulfillment.Common.{
  ℕ, zero, suc, Bool, true, ◌&&◌, ◌||◌, not, List, [], ◌∷◌, ◌++◌, map, ◌==◌, if◌then◌else◌,
  contains, keep_if, Result, ok, err, Error, Action, ◌>>=◌, ◌>>◌, reads, modify,
}
use multi_robot_fulfillment.Common.Int.{ℤ, pos, pos_part, leb_ℤ, ltb_ℤ}
use multi_robot_fulfillment.Geometry.{Position, position_eq, apply_to, directions, Direction}

pub record Grid : Type 0 where
  pub width : ℤ
  pub height : ℤ
  pub blocked_cells : List Position

-- `Grid(width, height)`
unfoldable pub new : ℤ → ℤ → Result Grid
new width height =
    if leb_ℤ width (pos 0) || leb_ℤ height (pos 0)
    then err Error.value_error
    else ok (record { width = width; height = height; blocked_cells = [] })

unfoldable pub in_bounds : Grid → Position → Bool
in_bounds g p =
    leb_ℤ (pos 0) p.row && ltb_ℤ p.row g.height && (leb_ℤ (pos 0) p.col && ltb_ℤ p.col g.width)

unfoldable pub is_blocked : Grid → Position → Bool
is_blocked g p = if not (in_bounds g p) then true else contains g.blocked_cells p

unfoldable pub is_traversable : Grid → Position → Bool
is_traversable g p = in_bounds g p && not (contains g.blocked_cells p)

unfoldable pub require_in_bounds : Grid → Position → Result (Unit {0})
require_in_bounds g p = if not (in_bounds g p) then err Error.invalid_position else ok tt

-- The loop over the directions, which keeps the traversable candidates.
unfoldable pub traversable_steps : Grid → Position → List Direction → List Position
traversable_steps g p [] = []
traversable_steps g p (d ∷ ds) =
    let rest = traversable_steps g p ds in
    if is_traversable g (apply_to d p) then apply_to d p ∷ rest else rest

unfoldable pub neighbors : Grid → Position → Result (List Position)
neighbors g p = elim (require_in_bounds g p) [
  | ok _ ↦ ok (traversable_steps g p directions)
  | err e ↦ err e
]

-- `range(n)`, from `i` on.
unfoldable pub range_from : ℕ → ℕ → List ℤ
range_from i zero = []
range_from i (suc n) = pos i ∷ range_from (suc i) n

unfoldable pub row_positions : List ℤ → ℤ → List Position
row_positions cols row = map (λ col. record { row = row; col = col }) cols

unfoldable pub positions_in : List ℤ → List ℤ → List Position
positions_in [] cols = []
positions_in (row ∷ rows) cols = row_positions cols row ++ positions_in rows cols

unfoldable pub all_positions : Grid → List Position
all_positions g = positions_in (range_from 0 (pos_part g.height)) (range_from 0 (pos_part g.width))

-- `set.add` and `set.discard`
abbrev pub set_add : Position → List Position → List Position
set_add p cells = if contains cells p then cells else p ∷ cells

abbrev pub set_discard : Position → List Position → List Position
set_discard p cells = keep_if (λ q. not (q == p)) cells

unfoldable pub block : Position → Action Grid (Unit {0})
block p = do
  reads (λ g. require_in_bounds g p)
  modify (λ g. record g { blocked_cells = set_add p g.blocked_cells })

unfoldable pub unblock : Position → Action Grid (Unit {0})
unblock p = do
  reads (λ g. require_in_bounds g p)
  modify (λ g. record g { blocked_cells = set_discard p g.blocked_cells })
