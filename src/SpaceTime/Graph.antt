-- ===== src/SpaceTime/Graph.antt =====
-- The graph that the space-time planner searches, which is finite because of the horizon.
use multi_robot_fulfillment.Common.{
  ℕ, zero, suc, ◌+◌, ◌-◌, ◌≤◌, ◌<◌, ◌≡◌, inr, inl, refl, Bool, true, ◌&&◌, List, [], ◌∷◌, map, ◌∈◌,
  arith, leb, nat_beq, mem-append, ok,
}
use multi_robot_fulfillment.Geometry.{Position, position_eq, position_beq_iff}
use multi_robot_fulfillment.Grid
use multi_robot_fulfillment.Warehouse
use multi_robot_fulfillment.Warehouse.{Warehouse}
use multi_robot_fulfillment.Search.Invariant.{Graph, Consistent}
use multi_robot_fulfillment.Search.Fuel.{Finite}
use multi_robot_fulfillment.Planning.Cells.{IsConsistent, mem_of_free}
use multi_robot_fulfillment.Coordination.{VertexKey, vertex_eq}
use multi_robot_fulfillment.SpaceTime.{Trip, state_at, timed_query, timed_states, universe}
use multi_robot_fulfillment.SpaceTime.Steps.{
  Advances, trip_steps, mem-trip_steps, timed_successors-eq-trip_steps, length-trip_steps,
}

mem-layer :
    (cells : List Position) (cell : Position) (timestep : ℕ)
    → cell ∈ cells
    → state_at cell timestep ∈ map (λ c. state_at c timestep) cells
mem-layer [] cell timestep m = absurd m
mem-layer (c ∷ cs) cell timestep m = ground (arith, mem-layer cs cell timestep)

mem-timed_states :
    (cells : List Position) (cell : Position) (timestep first count : ℕ)
    → cell ∈ cells
    → first ≤ timestep
    → timestep < first + count
    → state_at cell timestep ∈ timed_states cells first count
unfolding timed_states
mem-timed_states cells cell timestep first zero m lo hi = absurd (omega arith)
mem-timed_states cells cell timestep first (suc count) m lo hi = ground (
  arith,
  mem-append (map (λ c. state_at c first) cells) (timed_states cells (suc first) count)
      (state_at cell timestep),
  mem-layer cells cell timestep m,
  mem-timed_states cells cell timestep (suc first) count m,
)

module _ (trip : Trip) (start : Position) where
  open trip use {warehouse, heuristic, goal, reservations, robot_id, start_time, horizon}

  -- The cost of a state is the time since the start.
  abbrev pub is_timely : VertexKey → ℕ → Bool
  is_timely s g =
      Warehouse.is_traversable warehouse s.cell
      && (nat_beq s.timestep (start_time + g) && leb s.timestep horizon)

  abbrev pub first_state : VertexKey
  first_state = state_at start start_time

  pub is_timely_start :
      Warehouse.is_traversable warehouse start ≡ true
      → start_time ≤ horizon
      → is_timely first_state 0 ≡ true
  is_timely_start free soon = ground arith

  pub is_timely_step :
      (s t : VertexKey) (g : ℕ)
      → is_timely s g ≡ true
      → Advances warehouse reservations robot_id horizon s t
      → is_timely t (suc g) ≡ true
  is_timely_step s t g v a = ground (arith, a.in_time, a.next, a.free)

  pub next_cost_lem :
      (s : VertexKey) (g : ℕ)
      → is_timely s g ≡ true
      → (timed_query trip).next_cost [] s ≡ ok (suc g)
  next_cost_lem s g v = ground arith

  pub time_of_cost :
      (s : VertexKey) (g g' : ℕ) → is_timely s g ≡ true → is_timely s g' ≡ true → g ≡ g'
  time_of_cost s g g' v v' = ground arith

  pub is_timely_free :
      (s : VertexKey) (g : ℕ)
      → is_timely s g ≡ true
      → Warehouse.is_traversable warehouse s.cell ≡ true
  is_timely_free s g v = ground arith

  module _ (free : Warehouse.is_traversable warehouse start ≡ true)
      (soon : start_time ≤ horizon) where
    abbrev pub trip_graph : Graph (timed_query trip) first_state
    trip_graph = record {
      steps = trip_steps trip;
      valid = is_timely;
      start_valid = is_timely_start free soon;
      step_valid = λ s t g v m. is_timely_step s t g v ((mem-trip_steps trip s t).0 m);
      successors_lem = λ s g v. timed_successors-eq-trip_steps trip s (is_timely_free s g v);
      next_cost_lem = λ best s g k v. next_cost_lem s g v;
      final = inr time_of_cost;
    }

    pub mem-universe : (s : VertexKey) (g : ℕ) → is_timely s g ≡ true → s ∈ universe trip
    mem-universe s g v =
        mem-timed_states (Grid.all_positions warehouse.grid) s.cell s.timestep start_time
          (horizon + 1 - start_time) (mem_of_free warehouse s.cell (is_timely_free s g v))
          (ground arith) (ground arith)

    abbrev pub trip_finite : Finite (timed_query trip) first_state trip_graph
    trip_finite = record {
      universe = universe trip;
      degree = 5;
      mem-universe = mem-universe;
      length-steps = length-trip_steps trip;
    }

    one_step :
        (s t : VertexKey)
        → IsConsistent heuristic
        → Advances warehouse reservations robot_id horizon s t
        → heuristic s.cell goal ≤ suc (heuristic t.cell goal)
    one_step s t c a = elim a.way [
      | inl same ↦ rw same (omega arith)
      | inr (near, _) ↦ c.one_step s.cell t.cell goal near
    ]

    at_goal :
        (s : VertexKey)
        → IsConsistent heuristic
        → (timed_query trip).is_goal s ≡ true
        → heuristic s.cell goal ≡ 0
    at_goal s c h =
        let same : s.cell ≡ goal = ground (arith, position_beq_iff s.cell goal) in
        rw same (c.at_goal goal)

    pub trip-Consistent :
        IsConsistent heuristic → Consistent (timed_query trip) first_state trip_graph
    trip-Consistent c = record {
      estimate = λ s. heuristic s.cell goal;
      rank_lem = λ g s. refl;
      estimate_step = λ s t g v m. one_step s t c ((mem-trip_steps trip s t).0 m);
      estimate_goal = λ s h. at_goal s c h;
    }
