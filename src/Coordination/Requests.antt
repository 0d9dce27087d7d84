-- ===== src/Coordination/Requests.antt =====
-- The reservation table's answers to a planner, and the release of a robot's reservations.
use multi_robot_fulfillment.Common.{
  ℕ, ◌+◌, ◌≡◌, ◌↔◌, ◌⊎◌, refl, true, false, Option, none, some, [], ◌∷◌, arith, nat_eq, nat_beq,
  if◌then◌else◌, ok, Eq,
}
use multi_robot_fulfillment.Common.Dict.{Dict, lookup, IsDict}
use multi_robot_fulfillment.Geometry.{Position, position_eq, position_beq_iff}
use multi_robot_fulfillment.Coordination.{
  VertexKey, EdgeKey, vertex_eq, edge_eq, ReservationTable, held_by_other, is_vertex_free,
  is_swap_conflict, no_swap, is_move_allowed, vertex_reserver, edge_reserver, without_owner,
  owned_by, release_robot, reservations_owned_by,
}

-- A robot may make a move, or wait, exactly when no other robot holds the cell at the next timestep
-- and, for a move, none holds the opposite move; the question changes the count of questions alone.
pub is_move_allowed_iff :
    (from_cell to_cell : Position) (timestep robot_id : ℕ) (t : ReservationTable)
    → let vertex : VertexKey = record { cell = to_cell; timestep = timestep + 1 } in
      let back : EdgeKey = record {
        from_cell = to_cell;
        to_cell = from_cell;
        timestep = timestep;
      } in
      let (answer, t') = is_move_allowed from_cell to_cell timestep robot_id t in
      ((answer ≡ ok true) ↔ (
        (held_by_other robot_id (lookup vertex t.vertices) ≡ false)
        × ((from_cell ≡ to_cell) ⊎ (held_by_other robot_id (lookup back t.edges) ≡ false))))
      × (t'.vertices ≡ t.vertices)
      × (t'.edges ≡ t.edges)
unfolding is_move_allowed is_vertex_free is_swap_conflict no_swap vertex_reserver edge_reserver
is_move_allowed_iff from_cell to_cell timestep robot_id t =
    (ground (arith, position_beq_iff from_cell to_cell), ground arith, ground arith)

-- What is left for a key when a robot's entries are dropped.
abbrev pub unless_owned : ℕ → Option ℕ → Option ℕ
unless_owned robot_id none = none
unless_owned robot_id (some owner) = if nat_beq owner robot_id then none else some owner

module _ {K : Type 0} ⦃e : Eq K⦄ where
  without_owner-none :
      (robot_id : ℕ) (k : K) (d : Dict K ℕ)
      → lookup k d ≡ none
      → lookup k (without_owner robot_id d) ≡ none
  without_owner-none robot_id k [] h = refl
  without_owner-none robot_id k ((j, o) ∷ d) h = ground (arith, without_owner-none robot_id k d)

  lookup-without_owner :
      (robot_id : ℕ) (k : K) (d : Dict K ℕ)
      → IsDict d
      → lookup k (without_owner robot_id d) ≡ unless_owned robot_id (lookup k d)
  lookup-without_owner robot_id k [] h = refl
  lookup-without_owner robot_id k ((j, o) ∷ d) h =
      ground (
        arith,
        e.beq_iff k j,
        without_owner-none robot_id k d,
        lookup-without_owner robot_id k d h.1,
      )

  owned_by-without_owner :
      (robot_id : ℕ) (d : Dict K ℕ) → owned_by robot_id (without_owner robot_id d) ≡ 0
  owned_by-without_owner robot_id [] = refl
  owned_by-without_owner robot_id ((j, o) ∷ d) = ground (arith, owned_by-without_owner robot_id d)

-- The release of a robot returns the number of its reservations, leaves it none, and changes no
-- other robot's.
pub release_robot_exact :
    (robot_id : ℕ) (t : ReservationTable)
    → IsDict t.vertices
    → IsDict t.edges
    → let (answer, t') = release_robot robot_id t in
      (answer ≡ ok (reservations_owned_by robot_id t))
      × (reservations_owned_by robot_id t' ≡ 0)
      × ((k : VertexKey) → lookup k t'.vertices ≡ unless_owned robot_id (lookup k t.vertices))
      × ((k : EdgeKey) → lookup k t'.edges ≡ unless_owned robot_id (lookup k t.edges))
unfolding release_robot reservations_owned_by
release_robot_exact robot_id t one_vertex one_edge = (
  refl,
  ground
      (arith, owned_by-without_owner robot_id t.vertices, owned_by-without_owner robot_id t.edges),
  λ k. lookup-without_owner robot_id k t.vertices one_vertex,
  λ k. lookup-without_owner robot_id k t.edges one_edge,
)
