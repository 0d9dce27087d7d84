-- ===== src/Coordination/Tests.antt =====
-- Two robots whose paths cross, one timestep after the other.
use multi_robot_fulfillment.Common.{
  none, some, ◌≢◌, ℕ, ◌+◌, ◌≡◌, ◌↔◌, ◌⊎◌, inl, inr, refl, true, false, [], ◌∷◌, ok, arith, nat_eq,
}
use multi_robot_fulfillment.Common.Dict.{lookup}
use multi_robot_fulfillment.Common.Int.{pos}
use multi_robot_fulfillment.Geometry
use multi_robot_fulfillment.Geometry.{Position}
use multi_robot_fulfillment.Coordination.{
  position_at, TimedStep, TimedPath, VertexKey, EdgeKey, vertex_eq, edge_eq, ReservationTable,
  empty_table, held_by_other, reserve_all, reserve_timed_path, reserve_steps, reserve_moves,
  reserve_vertex, reserve_edge, hold_goal, hold_cell, is_move_allowed, release_robot,
  reservations_owned_by,
}
use multi_robot_fulfillment.Coordination.Reserved.{Occupies, reserve_all_apart}
use multi_robot_fulfillment.Coordination.Positions.{position_at_apart}
use multi_robot_fulfillment.Coordination.Requests.{
  is_move_allowed_iff, release_robot_exact, unless_owned,
}

abbrev cell : ℕ → ℕ → Position
cell r c = record { row = pos r; col = pos c }

abbrev step_to : ℕ → ℕ → ℕ → TimedStep
step_to r c t = record { position = cell r c; timestep = t }

abbrev eastward : TimedPath
eastward = record {
  robot_id = 1;
  steps = step_to 1 0 0 ∷ step_to 1 1 1 ∷ step_to 1 2 2 ∷ [];
  success = true;
  failure_reason = none;
}

abbrev southward : TimedPath
southward = record {
  robot_id = 2;
  steps = step_to 0 1 0 ∷ step_to 0 1 1 ∷ step_to 1 1 2 ∷ step_to 2 1 3 ∷ [];
  success = true;
  failure_reason = none;
}

both_taken : (reserve_all (eastward ∷ southward ∷ []) 4 empty_table).0 ≡ ok tt
unfolding reserve_all reserve_timed_path reserve_steps reserve_moves reserve_vertex reserve_edge
    hold_goal hold_cell Geometry.position_beq
both_taken = refl

reserve_all_apart_example : ¬ Occupies southward 4 (cell 1 1) 1
reserve_all_apart_example =
    reserve_all_apart (eastward ∷ southward ∷ []) 4 empty_table eastward southward (cell 1 1) 1
      both_taken (inl refl) (inr (inl refl)) (λ e. ground arith)
      (record { there = inl (inr (inl (refl, refl))) })

abbrev one_claim : ReservationTable
one_claim = record {
  vertices = (record { cell = cell 0 1; timestep = 1 }, 1) ∷ [];
  edges = (record { from_cell = cell 0 0; to_cell = cell 0 1; timestep = 0 }, 1) ∷ [];
  query_count = 0;
}

is_move_allowed_iff_example :
    let vertex : VertexKey = record { cell = cell 0 0; timestep = 0 + 1 } in
    let back : EdgeKey = record { from_cell = cell 0 0; to_cell = cell 0 1; timestep = 0 } in
    let (answer, t') = is_move_allowed (cell 0 1) (cell 0 0) 0 2 one_claim in
    ((answer ≡ ok true) ↔ (
      (held_by_other 2 (lookup vertex one_claim.vertices) ≡ false)
      × ((cell 0 1 ≡ cell 0 0) ⊎ (held_by_other 2 (lookup back one_claim.edges) ≡ false))))
    × (t'.vertices ≡ one_claim.vertices)
    × (t'.edges ≡ one_claim.edges)
is_move_allowed_iff_example = is_move_allowed_iff (cell 0 1) (cell 0 0) 0 2 one_claim

release_robot_exact_example :
    let (answer, t') = release_robot 1 one_claim in
    (answer ≡ ok (reservations_owned_by 1 one_claim))
    × (reservations_owned_by 1 t' ≡ 0)
    × ((k : VertexKey) → lookup k t'.vertices ≡ unless_owned 1 (lookup k one_claim.vertices))
    × ((k : EdgeKey) → lookup k t'.edges ≡ unless_owned 1 (lookup k one_claim.edges))
release_robot_exact_example = release_robot_exact 1 one_claim (refl, tt) (refl, tt)

position_at_apart_example :
    (a b : Position) × (position_at eastward 1 ≡ ok (some a))
    × (position_at southward 1 ≡ ok (some b))
    × (a ≢ b)
position_at_apart_example =
    position_at_apart (eastward ∷ southward ∷ []) 4 empty_table eastward southward
      (record {
        first = step_to 1 0 0;
        others = step_to 1 1 1 ∷ step_to 1 2 2 ∷ [];
        steps = refl;
        timed = (refl, (refl, tt));
      })
      (record {
        first = step_to 0 1 0;
        others = step_to 0 1 1 ∷ step_to 1 1 2 ∷ step_to 2 1 3 ∷ [];
        steps = refl;
        timed = (refl, (refl, (refl, tt)));
      })
      1 both_taken (inl refl) (inr (inl refl)) (λ e. ground arith) (omega arith) (omega arith)
      (omega arith)
