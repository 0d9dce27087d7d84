-- ===== src/Planning/Cells.antt =====
-- The graph that the planners search: cells, and steps to adjacent cells on which a robot may stand.
use multi_robot_fulfillment.Common.{
  List, [], ◌∷◌, length, first?, last?, subst, ℕ, zero, suc, ◌+◌, ◌≤◌, ◌≡◌, inl, refl, true, some,
  ◌==◌, ◌∈◌, arith, ok,
}
use multi_robot_fulfillment.Common.Dict.{Dict, lookup}
use multi_robot_fulfillment.Geometry.{
  Position, position_eq, position_beq_iff, is_adjacent_to, Heuristic, manhattan_distance,
  zero_heuristic,
}
use multi_robot_fulfillment.Geometry.Laws.{manhattan_distance_consistent, manhattan_distance_self}
use multi_robot_fulfillment.Grid
use multi_robot_fulfillment.Grid.Laws.{mem-all_positions, traversable-in_bounds}
use multi_robot_fulfillment.Warehouse
use multi_robot_fulfillment.Warehouse.{Warehouse}
use multi_robot_fulfillment.Warehouse.Neighbors.{
  open_steps, neighbors-eq-open_steps, mem-open_steps, is_traversable-in_bounds, length-open_steps,
}
use multi_robot_fulfillment.Search.Invariant.{Graph, Consistent, Walk, here, step}
use multi_robot_fulfillment.Search.Fuel.{Finite}
use multi_robot_fulfillment.Search.Route.{Chain, Distinct, IsRoute}
use multi_robot_fulfillment.Planning.{cell_query, tentative_cost}

-- A robot's walk over the floor: every cell is free, and each move goes to an adjacent cell.
pub data CellWalk (w : Warehouse) (start : Position) : ℕ → Position → Type 0 where
  stand : Warehouse.is_traversable w start ≡ true → CellWalk w start zero start
  move :
      {n : ℕ} {p q : Position}
      → CellWalk w start n p
      → is_adjacent_to p q ≡ true
      → Warehouse.is_traversable w q ≡ true
      → CellWalk w start (suc n) q

-- Every cell of the list is free, and each but the first is adjacent to the one before it.
abbrev pub FreeMoves : Warehouse → List Position → Type 0
FreeMoves w [] = Unit
FreeMoves w (p ∷ []) = Warehouse.is_traversable w p ≡ true
FreeMoves w (p ∷ q ∷ ps) =
    (Warehouse.is_traversable w p ≡ true) × (is_adjacent_to p q ≡ true) × FreeMoves w (q ∷ ps)

-- The cells of a path from `start` to `goal`, in the order in which a robot drives them.
pub record IsPath (w : Warehouse) (start goal : Position) (moves : ℕ) (path : List Position)
    : Type 0 where
  pub first : first? path ≡ some start
  pub last : last? path ≡ some goal
  pub legal : FreeMoves w path
  pub cells : length path ≡ suc moves
  pub distinct : Distinct path

Chain-FreeMoves :
    (w : Warehouse) (p : Position) (ps : List Position)
    → Warehouse.is_traversable w p ≡ true
    → Chain (open_steps w) (p ∷ ps)
    → FreeMoves w (p ∷ ps)
Chain-FreeMoves w p [] free chain = free
Chain-FreeMoves w p (q ∷ qs) free (m, chain) =
    let (near, free') = (mem-open_steps w p q).0 m in
    (free, near, Chain-FreeMoves w q qs free' chain)

pub IsRoute-IsPath :
    (w : Warehouse) (start goal : Position) (moves : ℕ) (path : List Position)
    → Warehouse.is_traversable w start ≡ true
    → IsRoute (open_steps w) start goal moves path
    → IsPath w start goal moves path
IsRoute-IsPath w start goal moves [] free route = absurd (ground (arith, route.first))
IsRoute-IsPath w start goal moves (p ∷ ps) free route =
    let same : start ≡ p = ground (arith, route.first) in
    record {
      first = route.first;
      last = route.last;
      legal =
          Chain-FreeMoves w p ps (subst (λ q. Warehouse.is_traversable w q ≡ true) same free)
            route.chain;
      cells = route.moves;
      distinct = route.distinct;
    }

pub CellWalk-Walk :
    {w : Warehouse} {start : Position} {n : ℕ} {p : Position}
    → CellWalk w start n p
    → Walk (open_steps w) start n p
CellWalk-Walk (stand free) = here
CellWalk-Walk {w} (move {p} {q} walk near free) =
    step (CellWalk-Walk walk) ((mem-open_steps w p q).1 (near, free))

pub CellWalk-free :
    {w : Warehouse} {start : Position} {n : ℕ} {p : Position}
    → CellWalk w start n p
    → (Warehouse.is_traversable w start ≡ true) × (Warehouse.is_traversable w p ≡ true)
CellWalk-free (stand free) = (free, free)
CellWalk-free (move walk near free) = ((CellWalk-free walk).0, free)

pub tentative_cost_lem :
    (best : Dict Position ℕ) (p : Position) (g : ℕ)
    → lookup p best ≡ some g
    → tentative_cost best p ≡ ok (suc g)
tentative_cost_lem best p g k = ground arith

pub step_free :
    (w : Warehouse) (p q : Position) → q ∈ open_steps w p → Warehouse.is_traversable w q ≡ true
step_free w p q m = ((mem-open_steps w p q).0 m).1

pub mem_of_free :
    (w : Warehouse) (p : Position)
    → Warehouse.is_traversable w p ≡ true
    → p ∈ Grid.all_positions w.grid
unfolding Warehouse.is_traversable
mem_of_free w p v = mem-all_positions w.grid p (ground (arith, traversable-in_bounds w.grid p))

module _ (order : ℕ → Position → ℕ × ℕ) (start goal : Position) (w : Warehouse)
    (free : Warehouse.is_traversable w start ≡ true) where
  abbrev pub cell_graph : Graph (cell_query order goal w) start
  cell_graph = record {
    steps = open_steps w;
    valid = λ p g. Warehouse.is_traversable w p;
    start_valid = free;
    step_valid = λ p q g v m. step_free w p q m;
    successors_lem = λ p g v. neighbors-eq-open_steps w p (is_traversable-in_bounds w p v);
    next_cost_lem = λ best p g k v. tentative_cost_lem best p g k;
    final = inl refl;
  }

  abbrev pub cell_finite : Finite (cell_query order goal w) start cell_graph
  cell_finite = record {
    universe = Grid.all_positions w.grid;
    degree = 4;
    mem-universe = λ p g v. mem_of_free w p v;
    length-steps = length-open_steps w;
  }

-- One step lowers the heuristic by at most one, and it is zero at the goal.
pub record IsConsistent (heuristic : Heuristic) : Type 0 where
  pub one_step :
      (p q goal : Position) → is_adjacent_to p q ≡ true → heuristic p goal ≤ suc (heuristic q goal)
  pub at_goal : (goal : Position) → heuristic goal goal ≡ 0

pub manhattan_distance-IsConsistent : IsConsistent manhattan_distance
manhattan_distance-IsConsistent = record {
  one_step = λ p q goal near. omega (arith, manhattan_distance_consistent p q goal near);
  at_goal = manhattan_distance_self;
}

pub zero_heuristic-IsConsistent : IsConsistent zero_heuristic
unfolding zero_heuristic
zero_heuristic-IsConsistent = record {
  one_step = λ p q goal near. omega arith;
  at_goal = λ goal. refl;
}

heuristic_at_goal :
    (heuristic : Heuristic) (goal p : Position)
    → IsConsistent heuristic
    → (p == goal) ≡ true
    → heuristic p goal ≡ 0
heuristic_at_goal heuristic goal p c h = rw ((position_beq_iff p goal).0 h) (c.at_goal goal)

-- An order by the cost plus a consistent heuristic, whatever breaks the ties.
module _ (order : ℕ → Position → ℕ × ℕ) (heuristic : Heuristic) (c : IsConsistent heuristic)
    (start goal : Position) (w : Warehouse) (free : Warehouse.is_traversable w start ≡ true)
    (ranks : (g : ℕ) (p : Position) → (order g p).0 ≡ g + heuristic p goal) where
  pub cell-Consistent :
      Consistent (cell_query order goal w) start (cell_graph order start goal w free)
  cell-Consistent = record {
    estimate = λ p. heuristic p goal;
    rank_lem = ranks;
    estimate_step = λ p q g v m. c.one_step p q goal ((mem-open_steps w p q).0 m).0;
    estimate_goal = λ p h. heuristic_at_goal heuristic goal p c h;
  }
