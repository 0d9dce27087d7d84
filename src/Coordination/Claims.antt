-- ===== src/Coordination/Claims.antt =====
-- When a reservation is not refused: `reserve_vertex`, `reserve_edge` and the loops of
-- `reserve_timed_path` on cells and edges that no other robot holds.
use multi_robot_fulfillment.Common.{
  ℕ, ◌≡◌, ◌⊎◌, ap, inl, inr, false, Option, some, arith, nat_eq, ok, Action, ◌>>◌, Eq-cases,
}
use multi_robot_fulfillment.Common.Dict.{lookup, insert, lookup-insert, lookup-insert_self}
use multi_robot_fulfillment.Geometry.{Position, position_eq}
use multi_robot_fulfillment.Coordination.{
  EdgeKey, vertex_eq, edge_eq, ReservationTable, held_by_other, reserve_vertex, reserve_edge,
}
use multi_robot_fulfillment.Coordination.Vertices.{
  holder, Keeps, Keeps-refl, Keeps-trans, reserve_vertex-Keeps,
}

abbrev pub edge_holder : Position → Position → ℕ → ReservationTable → Option ℕ
edge_holder p q timestep table =
    lookup (record { from_cell = p; to_cell = q; timestep = timestep }) table.edges

-- Whoever holds a move holds the cell that it leaves.
pub record IsGuarded (table : ReservationTable) : Type 0 where
  pub guarded :
      (p q : Position) (timestep owner : ℕ)
      → edge_holder p q timestep table ≡ some owner
      → holder p timestep table ≡ some owner

pub then_runs :
    (first second : Action ReservationTable (Unit {0})) (t : ReservationTable)
    → (first t).0 ≡ ok tt
    → (first >> second) t ≡ second (first t).1
then_runs first second t h = ground arith

-- A claim of the robot that was not refused: nothing of another robot's changes.
module _ (robot_id : ℕ) where
  pub record Grants (t t' : ReservationTable) : Type 0 where
    pub keeps : Keeps t t'
    pub edges_kept :
        (p q : Position) (timestep owner : ℕ)
        → edge_holder p q timestep t ≡ some owner
        → edge_holder p q timestep t' ≡ some owner
    pub still :
        (cell : Position) (timestep : ℕ)
        → held_by_other robot_id (holder cell timestep t) ≡ false
        → held_by_other robot_id (holder cell timestep t') ≡ false
    pub guards : IsGuarded t → IsGuarded t'

  pub Grants-refl : (t : ReservationTable) → Grants t t
  Grants-refl t = record {
    keeps = Keeps-refl t;
    edges_kept = λ p q i o h. h;
    still = λ c i h. h;
    guards = λ g. g;
  }

  pub Grants-trans : {t u v : ReservationTable} → Grants t u → Grants u v → Grants t v
  Grants-trans first second = record {
    keeps = Keeps-trans first.keeps second.keeps;
    edges_kept = λ p q i o h. second.edges_kept p q i o (first.edges_kept p q i o h);
    still = λ c i h. second.still c i (first.still c i h);
    guards = λ g. second.guards (first.guards g);
  }

  -- A call that returns and grants what it was asked for.
  pub record Granted (call : Action ReservationTable (Unit {0})) (t : ReservationTable)
      : Type 0 where
    pub returns : (call t).0 ≡ ok tt
    pub grants : Grants t (call t).1

  pub Granted-then :
      (first second : Action ReservationTable (Unit {0})) (t : ReservationTable)
      → Granted first t
      → Granted second (first t).1
      → Granted (first >> second) t
  Granted-then first second t a b = record {
    returns = rw (then_runs first second t a.returns) b.returns;
    grants = rw (then_runs first second t a.returns) (Grants-trans a.grants b.grants);
  }

  reserve_vertex-edges :
      (cell : Position) (timestep : ℕ) (t : ReservationTable)
      → (reserve_vertex cell timestep robot_id t).1.edges ≡ t.edges
  unfolding reserve_vertex
  reserve_vertex-edges cell timestep t = ground arith

  reserve_vertex-still :
      (cell c : Position) (timestep i : ℕ) (t : ReservationTable)
      → held_by_other robot_id (holder c i t) ≡ false
      → held_by_other robot_id (holder c i (reserve_vertex cell timestep robot_id t).1) ≡ false
  unfolding reserve_vertex
  reserve_vertex-still cell c timestep i t h = ground (
    arith,
    lookup-insert (record { cell = cell; timestep = timestep }) (record { cell = c; timestep = i })
        robot_id t.vertices,
  )

  reserve_vertex-returns :
      (cell : Position) (timestep : ℕ) (t : ReservationTable)
      → held_by_other robot_id (holder cell timestep t) ≡ false
      → (reserve_vertex cell timestep robot_id t).0 ≡ ok tt
  unfolding reserve_vertex
  reserve_vertex-returns cell timestep t h = ground arith

  pub reserve_vertex-Granted :
      (cell : Position) (timestep : ℕ) (t : ReservationTable)
      → held_by_other robot_id (holder cell timestep t) ≡ false
      → Granted (reserve_vertex cell timestep robot_id) t
  reserve_vertex-Granted cell timestep t h = record {
    returns = reserve_vertex-returns cell timestep t h;
    grants = record {
      keeps = reserve_vertex-Keeps cell timestep robot_id t;
      edges_kept = λ p q i o k. rw (reserve_vertex-edges cell timestep t) k;
      still = λ c i k. reserve_vertex-still cell c timestep i t k;
      guards = λ g. record {
        guarded = λ p q i o k.
            (reserve_vertex-Keeps cell timestep robot_id t).kept p i o
              (g.guarded p q i o (rw (reserve_vertex-edges cell timestep t) at k));
      };
    };
  }

  module _ (p q : Position) (timestep : ℕ) (t : ReservationTable)
      (clear : held_by_other robot_id (edge_holder p q timestep t) ≡ false) where
    abbrev edge : EdgeKey
    edge = record { from_cell = p; to_cell = q; timestep = timestep }

    reserve_edge_lem :
        reserve_edge p q timestep robot_id t
        ≡ (ok tt, record t { edges = insert edge robot_id t.edges })
    unfolding reserve_edge
    reserve_edge_lem = ground arith

    edge_cases :
        (a b : Position) (i owner : ℕ)
        → lookup
            (record { from_cell = a; to_cell = b; timestep = i })
            (insert edge robot_id t.edges)
          ≡ some owner
        → (a ≡ p) × (i ≡ timestep) × (robot_id ≡ owner) ⊎ (edge_holder a b i t ≡ some owner)
    edge_cases a b i owner h =
        elim (Eq-cases (record { from_cell = a; to_cell = b; timestep = i }) edge) [
          | inl (same, test) ↦ inl (
            ap (λ e. e.from_cell) same,
            ap (λ e. e.timestep) same,
            ground (
              arith,
              lookup-insert edge (record { from_cell = a; to_cell = b; timestep = i }) robot_id
                  t.edges,
            ),
          )
          | inr (_, test) ↦ inr (
              ground (
                arith,
                lookup-insert edge (record { from_cell = a; to_cell = b; timestep = i }) robot_id
                    t.edges,
              ))
        ]

    edge_kept :
        (a b : Position) (i owner : ℕ)
        → edge_holder a b i t ≡ some owner
        → lookup
            (record { from_cell = a; to_cell = b; timestep = i })
            (insert edge robot_id t.edges)
          ≡ some owner
    edge_kept a b i owner h =
        elim (Eq-cases (record { from_cell = a; to_cell = b; timestep = i }) edge) [
          | inl (same, test) ↦ ground (
            arith,
            same,
            lookup-insert edge (record { from_cell = a; to_cell = b; timestep = i }) robot_id
                t.edges,
          )
          | inr (_, test) ↦ ground (
            arith,
            lookup-insert edge (record { from_cell = a; to_cell = b; timestep = i }) robot_id
                t.edges,
          )
        ]

    pub reserve_edge-Granted :
        holder p timestep t ≡ some robot_id
        → Granted (reserve_edge p q timestep robot_id) t
          × (edge_holder p q timestep (reserve_edge p q timestep robot_id t).1 ≡ some robot_id)
    reserve_edge-Granted there = (
      record {
        returns = ap (λ r. r.0) reserve_edge_lem;
        grants = rw reserve_edge_lem (record {
          keeps = record { kept = λ c i o h. h };
          edges_kept = edge_kept;
          still = λ c i h. h;
          guards = λ g. record {
            guarded = λ a b i o h. elim (edge_cases a b i o h) [
              | inl (same, now, mine) ↦ rw (same, now, ← mine) there
              | inr old ↦ g.guarded a b i o old
            ];
          };
        });
      },
      rw reserve_edge_lem (lookup-insert_self edge robot_id t.edges),
    )
