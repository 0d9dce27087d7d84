-- ===== src/Coordination/Vertices.antt =====
-- What a reservation leaves in the table of cells and timesteps.
use multi_robot_fulfillment.Common.{
  ℕ, ◌≡◌, ◌⊎◌, inl, inr, false, Option, some, arith, nat_eq, ok, err, Error, Bool-cases, Eq-cases,
}
use multi_robot_fulfillment.Common.Dict.{lookup, insert, lookup-insert, lookup-insert_self}
use multi_robot_fulfillment.Geometry.{Position, position_eq}
use multi_robot_fulfillment.Coordination.{
  VertexKey, vertex_eq, ReservationTable, held_by_other, reserve_vertex,
}

-- The robot that holds a cell at a timestep.
abbrev pub holder : Position → ℕ → ReservationTable → Option ℕ
holder cell timestep t = lookup (record { cell = cell; timestep = timestep }) t.vertices

-- No reservation of a cell is lost or handed on.
pub record Keeps (t t' : ReservationTable) : Type 0 where
  pub kept :
      (cell : Position) (timestep owner : ℕ)
      → holder cell timestep t ≡ some owner
      → holder cell timestep t' ≡ some owner

pub Keeps-refl : (t : ReservationTable) → Keeps t t
Keeps-refl t = record { kept = λ c i o h. h }

pub Keeps-trans : {t u v : ReservationTable} → Keeps t u → Keeps u v → Keeps t v
Keeps-trans first second = record { kept = λ c i o h. second.kept c i o (first.kept c i o h) }

-- A claim is refused, with no change, or entered.
reserve_vertex_cases :
    (cell : Position) (timestep robot_id : ℕ) (t : ReservationTable)
    → (reserve_vertex cell timestep robot_id t ≡ (err Error.value_error, t))
      ⊎ (held_by_other robot_id (holder cell timestep t) ≡ false)
        × (reserve_vertex cell timestep robot_id t ≡ (
          ok tt,
          record t {
            vertices = insert (record { cell = cell; timestep = timestep }) robot_id t.vertices;
          },
        ))
unfolding reserve_vertex
reserve_vertex_cases cell timestep robot_id t =
    elim (Bool-cases (held_by_other robot_id (holder cell timestep t))) [
      | inl taken ↦ inl (ground arith)
      | inr clear ↦ inr (clear, ground arith)
    ]

insert-Keeps :
    (key : VertexKey) (robot_id : ℕ) (t : ReservationTable)
    → held_by_other robot_id (lookup key t.vertices) ≡ false
    → Keeps t (record t { vertices = insert key robot_id t.vertices })
insert-Keeps key robot_id t clear = record {
  kept = λ c i o h. elim (Eq-cases (record { cell = c; timestep = i }) key) [
    | inl (same, test) ↦
        ground
          (arith, same, lookup-insert key (record { cell = c; timestep = i }) robot_id t.vertices)
    | inr (_, test) ↦
        ground (arith, lookup-insert key (record { cell = c; timestep = i }) robot_id t.vertices)
  ];
}

pub reserve_vertex-Keeps :
    (cell : Position) (timestep robot_id : ℕ) (t : ReservationTable)
    → Keeps t (reserve_vertex cell timestep robot_id t).1
reserve_vertex-Keeps cell timestep robot_id t =
    elim (reserve_vertex_cases cell timestep robot_id t) [
      | inl same ↦ rw same (Keeps-refl t)
      | inr (clear, done) ↦
          rw done (insert-Keeps (record { cell = cell; timestep = timestep }) robot_id t clear)
    ]

pub reserve_vertex-holder :
    (cell : Position) (timestep robot_id : ℕ) (t : ReservationTable)
    → (reserve_vertex cell timestep robot_id t).0 ≡ ok tt
    → holder cell timestep (reserve_vertex cell timestep robot_id t).1 ≡ some robot_id
reserve_vertex-holder cell timestep robot_id t returns =
    elim (reserve_vertex_cases cell timestep robot_id t) [
      | inl same ↦ absurd (ground (arith, same))
      | inr (_, done) ↦ rw done (lookup-insert_self _ robot_id t.vertices)
    ]
