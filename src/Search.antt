-- ===== src/Search.antt =====
-- The best-first loop that robotics/planning/astar.py and dijkstra.py share: a priority queue with
-- stale entries, the cheapest known cost and the predecessor of each state, and the set of finalised
-- states. The planners differ in the order of the queue, which is a parameter, and so is the graph.
pub mod Frontier
pub mod Invariant
pub mod Relax
pub mod Expand
pub mod Loop
pub mod Rule
pub mod Optimal
pub mod Least
pub mod Route
pub mod Fuel
use multi_robot_fulfillment.Common.{
  ℕ, zero, suc, ◌+◌, Bool, true, false, ◌&&◌, Option, none, some, List, [], ◌∷◌, ◌==◌, Eq, ltb,
  if◌then◌else◌, contains, Result, ok, err, Error, nat_beq, ◌||◌,
}
use multi_robot_fulfillment.Common.Dict.{Dict, lookup, insert}

-- The queue's tuple: `rank`, `tie`, `insertion_order` and `node`. Insertion orders are all
-- different, so nodes are never compared.
pub record Entry (S : Type 0) : Type 0 where
  pub rank : ℕ
  pub tie : ℕ
  pub insertion_order : ℕ
  pub node : S

module _ {S : Type 0} where
  abbrev before : Entry S → Entry S → Bool
  before x y =
      ltb x.rank y.rank
      || nat_beq x.rank y.rank
        && (ltb x.tie y.tie || nat_beq x.tie y.tie && ltb x.insertion_order y.insertion_order)

  -- `heappop` of a queue with first entry `x`: the smallest entry, and the others.
  unfoldable pub heappop : Entry S → List (Entry S) → Entry S × List (Entry S)
  heappop x [] = (x, [])
  heappop x (y ∷ ys) =
      let sooner = before y x in
      let (least, rest) = heappop (if sooner then y else x) ys in
      (least, (if sooner then x else y) ∷ rest)

pub record Search (S : Type 0) : Type 0 where
  pub frontier : List (Entry S)
  pub best_cost : Dict S ℕ
  pub came_from : Dict S S
  pub finalized : List S
  pub next_order : ℕ
  pub nodes_expanded : ℕ

-- `finalized.add(current); nodes_expanded += 1`
abbrev pub finalize : {S : Type 0} → S → List (Entry S) → Search S → Search S
finalize current rest s = record s {
  frontier = rest;
  finalized = current ∷ s.finalized;
  nodes_expanded = s.nodes_expanded + 1;
}

-- How the loop ends: at a goal, or with an empty queue.
pub data Ending (S : Type 0) : Type 0 where
  reached : S → Search S → Ending S
  exhausted : Search S → Ending S

-- `new_cost < best_cost.get(neighbour, inf)`
abbrev pub improves : ℕ → Option ℕ → Bool
improves cost none = true
improves cost (some old) = ltb cost old

module _ {S : Type 0} ⦃e : Eq S⦄ where
  -- `while current != start: current = came_from[current]; path.append(current)`, and the reversal.
  -- The path is built from its end, which is the order after the reversal.
  unfoldable pub walk_back : ℕ → Dict S S → S → S → List S → Result (List S)
  walk_back zero came_from start current path =
      if current == start then ok path else err Error.out_of_fuel
  walk_back (suc fuel) came_from start current path = elim (current == start) [
    | true ↦ ok path
    | false ↦ elim (lookup current came_from) [
      | none ↦ err Error.key_error
      | some previous ↦ walk_back fuel came_from start previous (previous ∷ path)
    ]
  ]

  unfoldable pub reconstruct_path : ℕ → Dict S S → S → S → Result (List S)
  reconstruct_path fuel came_from start goal = walk_back fuel came_from start goal (goal ∷ [])

-- What the loop is run with. `order` gives the rank and the tie-break of a state at a cost,
-- `next_cost` the cost of a step from a state, `skips_finalized` says whether the loop passes over
-- finalised neighbours, `successors` expands a state and `is_goal` is the test for the goal.
pub record Query (S : Type 0) : Type 0 where
  pub order : ℕ → S → ℕ × ℕ
  pub next_cost : Dict S ℕ → S → Result ℕ
  pub skips_finalized : Bool
  pub successors : S → Result (List S)
  pub is_goal : S → Bool

module _ {S : Type 0} ⦃e : Eq S⦄ (query : Query S) where
  open query use {order, next_cost, skips_finalized, successors, is_goal}

  -- The body of the loop over the neighbours.
  unfoldable pub relax : S → ℕ → Search S → S → Search S
  relax current cost s neighbour =
      if skips_finalized && contains s.finalized neighbour
      then s
      else if improves cost (lookup neighbour s.best_cost)
      then record s {
        frontier =
            record {
              rank = (order cost neighbour).0;
              tie = (order cost neighbour).1;
              insertion_order = s.next_order;
              node = neighbour;
            }
            ∷ s.frontier;
        best_cost = insert neighbour cost s.best_cost;
        came_from = insert neighbour current s.came_from;
        next_order = s.next_order + 1;
      }
      else s

  unfoldable pub relax_all : S → ℕ → Search S → List S → Search S
  relax_all current cost s [] = s
  relax_all current cost s (n ∷ ns) = relax_all current cost (relax current cost s n) ns

  unfoldable pub expand : S → Search S → Result (Search S)
  expand current s = elim (next_cost s.best_cost current) [
    | err x ↦ err x
    | ok cost ↦ elim (successors current) [
      | err x ↦ err x
      | ok neighbours ↦ ok (relax_all current cost s neighbours)
    ]
  ]

  unfoldable pub loop : ℕ → Search S → Result (Ending S)
  loop zero s = elim s.frontier [ [] ↦ ok (exhausted s) | _ ∷ _ ↦ err Error.out_of_fuel ]
  loop (suc fuel) s = elim s.frontier [
    | [] ↦ ok (exhausted s)
    | x ∷ xs ↦
        let (least, rest) = heappop x xs in
        let current = least.node in
        elim (contains s.finalized current) [
          | true ↦ loop fuel (record s { frontier = rest })
          | false ↦ elim (is_goal current) [
            | true ↦ ok (reached current (finalize current rest s))
            | false ↦ elim (expand current (finalize current rest s)) [
              | err x ↦ err x
              | ok s' ↦ loop fuel s'
            ]
          ]
        ]
  ]

  -- The search before the first round.
  abbrev pub begin : S → Search S
  begin start = record {
    frontier =
        record {
          rank = (order 0 start).0;
          tie = (order 0 start).1;
          insertion_order = 0;
          node = start;
        }
        ∷ [];
    best_cost = (start, 0) ∷ [];
    came_from = [];
    finalized = [];
    next_order = 1;
    nodes_expanded = 0;
  }
