-- ===== src/Grid/Laws.antt =====
-- What the queries and the mutations of a grid say to one another.
use multi_robot_fulfillment.Common.{
  ℕ, zero, suc, ◌+◌, ◌<◌, ◌≤◌, ◌≡◌, ◌⊎◌, ◌↔◌, true, not, List, [], ◌∷◌, arith, contains, mem-append,
  ◌∈◌, ok, map,
}
use multi_robot_fulfillment.Common.Int.{ℤ, pos, negsuc, pos_part, neg_part, ◌≤ℤ◌}
use multi_robot_fulfillment.Geometry.{
  Position, position_eq, position_beq_iff, Direction, apply_to, directions, is_adjacent_to,
}
use multi_robot_fulfillment.Geometry.Laws.{is_adjacent_to-apply_to, direction_of_adjacent}
use multi_robot_fulfillment.Grid.{
  Grid, in_bounds, is_traversable, is_blocked, traversable_steps, neighbors, range_from,
  row_positions, positions_in, all_positions, set_add, set_discard, require_in_bounds,
}

-- A cell is traversable exactly when it is not blocked.
pub is_traversable-is_blocked :
    (g : Grid) (p : Position) → is_traversable g p ≡ not (is_blocked g p)
unfolding is_traversable is_blocked
is_traversable-is_blocked g p = ground arith

pub traversable-in_bounds :
    (g : Grid) (p : Position) → is_traversable g p ≡ true → in_bounds g p ≡ true
unfolding is_traversable
traversable-in_bounds g p h = ground arith

mem-traversable_steps :
    (g : Grid) (p q : Position) (ds : List Direction)
    → (q ∈ traversable_steps g p ds)
      ↔ ((q ∈ map (λ d. apply_to d p) ds) × (is_traversable g q ≡ true))
unfolding traversable_steps
mem-traversable_steps g p q [] = ground arith
mem-traversable_steps g p q (d ∷ ds) = ground (arith, mem-traversable_steps g p q ds)

adjacent_of_mem :
    (p q : Position) (ds : List Direction)
    → q ∈ map (λ d. apply_to d p) ds
    → is_adjacent_to p q ≡ true
adjacent_of_mem p q [] m = absurd m
adjacent_of_mem p q (d ∷ ds) m = ground (arith, is_adjacent_to-apply_to d p, adjacent_of_mem p q ds)

-- The expansion of a cell holds exactly its adjacent traversable cells.
pub mem-traversable_steps_iff :
    (g : Grid) (p q : Position)
    → (q ∈ traversable_steps g p directions)
      ↔ ((is_adjacent_to p q ≡ true) × (is_traversable g q ≡ true))
mem-traversable_steps_iff g p q = ground (
  arith,
  mem-traversable_steps g p q directions,
  adjacent_of_mem p q directions,
  direction_of_adjacent p q,
)

pub neighbors-eq-ok :
    (g : Grid) (p : Position)
    → in_bounds g p ≡ true
    → neighbors g p ≡ ok (traversable_steps g p directions)
unfolding neighbors require_in_bounds
neighbors-eq-ok g p h = ground arith

mem-range_from : (i n k : ℕ) → i ≤ k → k < i + n → pos k ∈ range_from i n
unfolding range_from
mem-range_from i zero k lo hi = absurd (omega arith)
mem-range_from i (suc n) k lo hi = ground (arith, mem-range_from (suc i) n k)

mem-row_positions : (cols : List ℤ) (p : Position) → p.col ∈ cols → p ∈ row_positions cols p.row
unfolding row_positions
mem-row_positions [] p m = absurd m
mem-row_positions (c ∷ cs) p m = ground (arith, mem-row_positions cs p)

mem-positions_in :
    (rows cols : List ℤ) (p : Position) → p.row ∈ rows → p.col ∈ cols → p ∈ positions_in rows cols
unfolding positions_in
mem-positions_in [] cols p r c = absurd r
mem-positions_in (row ∷ rows) cols p r c = ground (
  arith,
  mem-append (row_positions cols row) (positions_in rows cols) p,
  mem-row_positions cols p,
  mem-positions_in rows cols p,
)

abbrev IsBelow : ℤ → ℤ → Type 0
IsBelow a b = pos_part a + neg_part b < pos_part b + neg_part a

mem-range_from_ℤ : (z top : ℤ) → pos 0 ≤ℤ z → IsBelow z top → z ∈ range_from 0 (pos_part top)
mem-range_from_ℤ (pos n) (pos m) lo hi = mem-range_from 0 m n (omega arith) (omega arith)
mem-range_from_ℤ (pos n) (negsuc m) lo hi = absurd (omega arith)
mem-range_from_ℤ (negsuc n) top lo hi = absurd (omega arith)

-- `all_positions` yields every cell of the grid.
pub mem-all_positions : (g : Grid) (p : Position) → in_bounds g p ≡ true → p ∈ all_positions g
unfolding all_positions in_bounds
mem-all_positions g p h =
    mem-positions_in (range_from 0 (pos_part g.height)) (range_from 0 (pos_part g.width)) p
      (mem-range_from_ℤ p.row g.height (ground arith) (ground arith))
      (mem-range_from_ℤ p.col g.width (ground arith) (ground arith))

pub contains-set_add :
    (p q : Position) (cells : List Position)
    → (contains (set_add p cells) q ≡ true) ↔ ((q ≡ p) ⊎ (contains cells q ≡ true))
contains-set_add p q cells = ground (arith, position_beq_iff q p)

pub contains-set_discard :
    (p q : Position) (cells : List Position)
    → (contains (set_discard p cells) q ≡ true) ↔ ((¬ (q ≡ p)) × (contains cells q ≡ true))
contains-set_discard p q [] = ground arith
contains-set_discard p q (c ∷ cs) =
    ground (arith, contains-set_discard p q cs, position_beq_iff c p, position_beq_iff q c)
