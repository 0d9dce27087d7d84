-- ===== src/SpaceTime/Steps.antt =====
-- The states that follow a state of the search: to wait, or to move to an adjacent free cell, one
-- timestep later and where no other robot has a claim.
use multi_robot_fulfillment.Common.{
  ℕ, suc, ◌+◌, ◌≤◌, ◌<◌, ◌≡◌, ◌⊎◌, ◌↔◌, refl, true, false, not, List, [], ◌∷◌, ◌++◌, ◌∈◌, arith,
  leb, if◌then◌else◌, mem-append, length, length-append, ok,
}
use multi_robot_fulfillment.Common.Dict.{lookup}
use multi_robot_fulfillment.Geometry.{Position, position_eq, position_beq_iff, is_adjacent_to}
use multi_robot_fulfillment.Warehouse
use multi_robot_fulfillment.Warehouse.{Warehouse}
use multi_robot_fulfillment.Warehouse.Neighbors.{
  open_steps, mem-open_steps, neighbors-eq-open_steps, is_traversable-in_bounds, length-open_steps,
}
use multi_robot_fulfillment.Coordination.{
  VertexKey, vertex_eq, edge_eq, ReservationTable, held_by_other, vertex_reserver, edge_reserver,
  is_vertex_free, is_swap_conflict, no_swap, is_move_allowed,
}
use multi_robot_fulfillment.Coordination.Vertices.{holder}
use multi_robot_fulfillment.SpaceTime.{
  Trip, answer, state_at, wait_steps, move_steps, timed_successors,
}

-- No other robot holds the cell at the timestep, or the move from `q` to `p` then.
abbrev pub IsUnclaimed : ReservationTable → ℕ → Position → ℕ → Type 0
IsUnclaimed table robot_id cell timestep =
    held_by_other robot_id (holder cell timestep table) ≡ false

abbrev pub IsUnopposed : ReservationTable → ℕ → Position → Position → ℕ → Type 0
IsUnopposed table robot_id p q timestep =
    held_by_other robot_id
      (lookup (record { from_cell = q; to_cell = p; timestep = timestep }) table.edges)
    ≡ false

module _ (table : ReservationTable) (robot_id : ℕ) where
  pub answer-is_vertex_free :
      (cell : Position) (timestep : ℕ)
      → answer (is_vertex_free cell timestep robot_id table).0
        ≡ not (held_by_other robot_id (holder cell timestep table))
  unfolding is_vertex_free vertex_reserver
  answer-is_vertex_free cell timestep = refl

  answer-is_move_allowed :
      (p q : Position) (timestep : ℕ)
      → (answer (is_move_allowed p q timestep robot_id table).0 ≡ true) ↔ (
          IsUnclaimed table robot_id q (timestep + 1)
          × ((p ≡ q) ⊎ IsUnopposed table robot_id p q timestep))
  unfolding is_move_allowed is_vertex_free vertex_reserver is_swap_conflict no_swap edge_reserver
  answer-is_move_allowed p q timestep = ground (arith, position_beq_iff p q)

-- The states that `timed_successors` returns from a cell of the floor.
unfoldable pub trip_steps : Trip → VertexKey → List VertexKey
trip_steps trip s =
    if leb trip.horizon s.timestep
    then []
    else wait_steps trip s ++ move_steps trip s (open_steps trip.warehouse s.cell)

pub timed_successors-eq-trip_steps :
    (trip : Trip) (s : VertexKey)
    → Warehouse.is_traversable trip.warehouse s.cell ≡ true
    → timed_successors trip s ≡ ok (trip_steps trip s)
unfolding timed_successors trip_steps
timed_successors-eq-trip_steps trip s free = ground (
  arith,
  neighbors-eq-open_steps trip.warehouse s.cell
      (is_traversable-in_bounds trip.warehouse s.cell free),
)

mem-wait_steps :
    (trip : Trip) (s q : VertexKey)
    → (q ∈ wait_steps trip s) ↔ (
        (q ≡ state_at s.cell (s.timestep + 1))
        × IsUnclaimed trip.reservations trip.robot_id s.cell (s.timestep + 1)
        × (Warehouse.is_traversable trip.warehouse s.cell ≡ true))
unfolding wait_steps
mem-wait_steps trip s q =
    ground (arith, answer-is_vertex_free trip.reservations trip.robot_id s.cell (s.timestep + 1))

mem-move_steps :
    (trip : Trip) (s q : VertexKey) (cells : List Position)
    → (q ∈ move_steps trip s cells) ↔ (
        (q.cell ∈ cells)
        × (q.timestep ≡ s.timestep + 1)
        × (answer (is_move_allowed s.cell q.cell s.timestep trip.robot_id trip.reservations).0
            ≡ true))
unfolding move_steps
mem-move_steps trip s q [] = ground arith
mem-move_steps trip s q (c ∷ cs) = ground (arith, mem-move_steps trip s q cs)

-- What a step of the search is.
pub record Advances (w : Warehouse) (table : ReservationTable) (robot_id horizon : ℕ)
    (s q : VertexKey) : Type 0 where
  pub in_time : s.timestep < horizon
  pub next : q.timestep ≡ suc s.timestep
  pub unclaimed : IsUnclaimed table robot_id q.cell (suc s.timestep)
  pub free : Warehouse.is_traversable w q.cell ≡ true
  pub way :
      (q.cell ≡ s.cell)
      ⊎ (is_adjacent_to s.cell q.cell ≡ true) × IsUnopposed table robot_id s.cell q.cell s.timestep

pub mem-trip_steps :
    (trip : Trip) (s q : VertexKey)
    → (q ∈ trip_steps trip s)
      ↔ Advances trip.warehouse trip.reservations trip.robot_id trip.horizon s q
unfolding trip_steps
mem-trip_steps trip s q =
    let cells = open_steps trip.warehouse s.cell in
    let next : s.timestep + 1 ≡ suc s.timestep = omega arith in
    ground (
      arith,
      mem-append (wait_steps trip s) (move_steps trip s cells) q,
      mem-wait_steps trip s q,
      mem-move_steps trip s q cells,
      mem-open_steps trip.warehouse s.cell q.cell,
      answer-is_move_allowed trip.reservations trip.robot_id s.cell q.cell s.timestep,
    )

length-wait_steps : (trip : Trip) (s : VertexKey) → length (wait_steps trip s) ≤ 1
unfolding wait_steps
length-wait_steps trip s = ground arith

length-move_steps :
    (trip : Trip) (s : VertexKey) (cells : List Position)
    → length (move_steps trip s cells) ≤ length cells
unfolding move_steps
length-move_steps trip s [] = omega arith
length-move_steps trip s (c ∷ cs) = ground (arith, length-move_steps trip s cs)

pub length-trip_steps : (trip : Trip) (s : VertexKey) → length (trip_steps trip s) ≤ 5
unfolding trip_steps
length-trip_steps trip s = ground (
  arith,
  length-append (wait_steps trip s) (move_steps trip s (open_steps trip.warehouse s.cell)),
  length-wait_steps trip s,
  length-move_steps trip s (open_steps trip.warehouse s.cell),
  length-open_steps trip.warehouse s.cell,
)
