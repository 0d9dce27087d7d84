-- ===== src/Coordination/Accepted.antt =====
-- When a table accepts a whole path: the loops of `reserve_timed_path` of
-- robotics/coordination/reservation_table.py on cells that no other robot holds.
use multi_robot_fulfillment.Common.{
  ℕ, zero, suc, ◌+◌, ◌-◌, ◌≤◌, ◌<◌, ◌≡◌, ◌≢◌, ◌⊎◌, inl, inr, refl, true, false, some, List, [], ◌∷◌,
  arith, nat_eq, ok, Action, ◌>>◌, Bool-cases, Option-cases, ◌==◌, last?,
}
use multi_robot_fulfillment.Geometry.{Position, position_eq, position_beq_iff}
use multi_robot_fulfillment.Coordination.{
  TimedStep, TimedPath, ReservationTable, held_by_other, reserve_vertex, reserve_edge,
  reserve_steps, reserve_moves, hold_cell, hold_goal, reserve_timed_path,
}
use multi_robot_fulfillment.Coordination.Vertices.{holder}
use multi_robot_fulfillment.Coordination.Reserved.{
  AtStep, AtGoal, Occupies, steps_taken, path_taken, on_wait, on_move,
}
use multi_robot_fulfillment.Coordination.Claims.{
  edge_holder, IsGuarded, Grants, Grants-refl, Granted, Granted-then, reserve_vertex-Granted,
  reserve_edge-Granted, then_runs,
}

-- The moves of a path: from one cell to the next, at a timestep.
abbrev pub MovesAt : List TimedStep → Position → Position → ℕ → Type 0
MovesAt [] a b timestep = ⊥
MovesAt (s ∷ []) a b timestep = ⊥
MovesAt (s ∷ q ∷ qs) a b timestep =
    ((s.position ≡ a) × (q.position ≡ b) × (s.timestep ≡ timestep)) ⊎ MovesAt (q ∷ qs) a b timestep

module _ (robot_id : ℕ) where
  reserve_steps-Granted :
      (steps : List TimedStep) (t : ReservationTable)
      → ((c : Position) (i : ℕ) → AtStep steps c i → held_by_other robot_id (holder c i t) ≡ false)
      → Granted robot_id (reserve_steps robot_id steps) t
  unfolding reserve_steps
  reserve_steps-Granted [] t clear = record { returns = refl; grants = Grants-refl robot_id t }
  reserve_steps-Granted (s ∷ ss) t clear =
      let first =
        reserve_vertex-Granted robot_id s.position s.timestep t
          (clear s.position s.timestep (inl (refl, refl))) in
      Granted-then robot_id (reserve_vertex s.position s.timestep robot_id)
        (reserve_steps robot_id ss) t first
        (reserve_steps-Granted ss (reserve_vertex s.position s.timestep robot_id t).1
          (λ c i m. first.grants.still c i (clear c i (inr m))))

  hold_cell-Granted :
      (cell : Position) (timestep count : ℕ) (t : ReservationTable)
      → ((i : ℕ)
          → timestep ≤ i
          → i < timestep + count
          → held_by_other robot_id (holder cell i t) ≡ false)
      → Granted robot_id (hold_cell cell timestep count robot_id) t
  unfolding hold_cell
  hold_cell-Granted cell timestep zero t clear = record {
    returns = refl;
    grants = Grants-refl robot_id t;
  }
  hold_cell-Granted cell timestep (suc count) t clear =
      let first =
        reserve_vertex-Granted robot_id cell timestep t
          (clear timestep (omega arith) (omega arith)) in
      Granted-then robot_id (reserve_vertex cell timestep robot_id)
        (hold_cell cell (timestep + 1) count robot_id) t first
        (hold_cell-Granted cell (timestep + 1) count (reserve_vertex cell timestep robot_id t).1
          (λ i lo hi. first.grants.still cell i (clear i (omega arith) (omega arith))))

  hold_goal-Granted :
      (horizon : ℕ) (goal : TimedStep) (t : ReservationTable)
      → ((c : Position) (i : ℕ)
          → AtGoal (some goal) horizon c i
          → held_by_other robot_id (holder c i t) ≡ false)
      → Granted robot_id (hold_goal robot_id horizon (some goal)) t
  unfolding hold_goal
  hold_goal-Granted horizon goal t clear =
      let held =
        hold_cell-Granted goal.position (goal.timestep + 1) (horizon - goal.timestep) t
          (λ i lo hi. clear goal.position i (refl, omega arith, omega arith)) in
      record { returns = held.returns; grants = held.grants }

  -- The robot holds the cells of its steps, so no other robot holds one of its moves.
  own_move :
      (p q : Position) (timestep : ℕ) (t : ReservationTable)
      → IsGuarded t
      → holder p timestep t ≡ some robot_id
      → held_by_other robot_id (edge_holder p q timestep t) ≡ false
  own_move p q timestep t g there = elim (Option-cases (edge_holder p q timestep t)) [
    | inl free ↦ rw free refl
    | inr (owner, taken) ↦ ground (arith, g.guarded p q timestep owner)
  ]

  -- The loop over the moves enters each of them.
  record Entered (steps : List TimedStep) (t : ReservationTable) : Type 0 where
    pub granted : Granted robot_id (reserve_moves robot_id steps) t
    pub entered :
        (a b : Position) (i : ℕ)
        → MovesAt steps a b i
        → a ≢ b
        → edge_holder a b i (reserve_moves robot_id steps t).1 ≡ some robot_id

  none-Entered : (t : ReservationTable) → Entered [] t
  unfolding reserve_moves
  none-Entered t = record {
    granted = record { returns = refl; grants = Grants-refl robot_id t };
    entered = λ a b i m. absurd m;
  }

  one-Entered : (s : TimedStep) (t : ReservationTable) → Entered (s ∷ []) t
  unfolding reserve_moves
  one-Entered s t = record {
    granted = record { returns = refl; grants = Grants-refl robot_id t };
    entered = λ a b i m. absurd m;
  }

  module _ (s q : TimedStep) (qs : List TimedStep) (t : ReservationTable) where
    wait-Entered : (s.position == q.position) ≡ true → Entered (q ∷ qs) t → Entered (s ∷ q ∷ qs) t
    wait-Entered same rest =
        let wait = on_wait robot_id s q qs t same in
        record {
          granted = record {
            returns = rw wait rest.granted.returns;
            grants = rw wait rest.granted.grants;
          };
          entered = λ a b i. elim [
            | inl m ↦ λ ne. absurd (ne (ground (arith, position_beq_iff s.position q.position)))
            | inr m ↦ λ ne. rw wait (rest.entered a b i m ne)
          ];
        }

    abbrev first_move : Action ReservationTable (Unit {0})
    first_move = reserve_edge s.position q.position s.timestep robot_id

    move-Entered :
        (s.position == q.position) ≡ false
        → holder s.position s.timestep t ≡ some robot_id
        → IsGuarded t
        → Entered (q ∷ qs) (first_move t).1
        → Entered (s ∷ q ∷ qs) t
    move-Entered other there g rest =
        let step = on_move robot_id s q qs t other in
        let clear = own_move s.position q.position s.timestep t g there in
        let (first, held) =
          reserve_edge-Granted robot_id s.position q.position s.timestep t clear there in
        let both =
          Granted-then robot_id first_move (reserve_moves robot_id (q ∷ qs)) t first rest.granted in
        let after = then_runs first_move (reserve_moves robot_id (q ∷ qs)) t first.returns in
        record {
          granted = record { returns = rw step both.returns; grants = rw step both.grants };
          entered = λ a b i. elim [
            | inl m ↦ λ ne.
                rw (step, after)
                  (rest.granted.grants.edges_kept a b i robot_id (rw (← m.0, ← m.1, ← m.2) held))
            | inr m ↦ λ ne. rw (step, after) (rest.entered a b i m ne)
          ];
        }

  reserve_moves-Entered :
      (steps : List TimedStep) (t : ReservationTable)
      → IsGuarded t
      → ((c : Position) (i : ℕ) → AtStep steps c i → holder c i t ≡ some robot_id)
      → Entered steps t
  reserve_moves-Entered [] t g there = none-Entered t
  reserve_moves-Entered (s ∷ []) t g there = one-Entered s t
  reserve_moves-Entered (s ∷ q ∷ qs) t g there = elim (Bool-cases (s.position == q.position)) [
    | inl same ↦
        wait-Entered s q qs t same (reserve_moves-Entered (q ∷ qs) t g (λ c i m. there c i (inr m)))
    | inr other ↦
        let here = there s.position s.timestep (inl (refl, refl)) in
        let clear = own_move s.position q.position s.timestep t g here in
        let (first, held) =
          reserve_edge-Granted robot_id s.position q.position s.timestep t clear here in
        move-Entered s q qs t other here g (
          reserve_moves-Entered (q ∷ qs)
            (reserve_edge s.position q.position s.timestep robot_id t).1 (first.grants.guards g)
            (λ c i m. first.grants.keeps.kept c i robot_id (there c i (inr m))))
  ]

-- A table in which a whole path was entered: its cells, and its moves.
pub record HasPath (p : TimedPath) (horizon : ℕ) (t : ReservationTable) : Type 0 where
  pub cells : (c : Position) (i : ℕ) → Occupies p horizon c i → holder c i t ≡ some p.robot_id
  pub moves :
      (a b : Position) (i : ℕ)
      → MovesAt p.steps a b i
      → a ≢ b
      → edge_holder a b i t ≡ some p.robot_id

pub Grants-HasPath :
    (robot_id : ℕ) (p : TimedPath) (horizon : ℕ) (t t' : ReservationTable)
    → Grants robot_id t t'
    → HasPath p horizon t
    → HasPath p horizon t'
Grants-HasPath robot_id p horizon t t' grants has = record {
  cells = λ c i m. grants.keeps.kept c i p.robot_id (has.cells c i m);
  moves = λ a b i m ne. grants.edges_kept a b i p.robot_id (has.moves a b i m ne);
}

module _ (p : TimedPath) (goal : TimedStep) (horizon : ℕ) (t : ReservationTable)
    (success : p.success ≡ true) (is_last : last? p.steps ≡ some goal) (g : IsGuarded t)
    (clear : (c : Position) (i : ℕ)
      → Occupies p horizon c i
      → held_by_other p.robot_id (holder c i t) ≡ false) where
  abbrev steps : Action ReservationTable (Unit {0})
  steps = reserve_steps p.robot_id p.steps

  abbrev moves : Action ReservationTable (Unit {0})
  moves = reserve_moves p.robot_id p.steps

  abbrev hold : Action ReservationTable (Unit {0})
  hold = hold_goal p.robot_id horizon (some goal)

  three_loops : reserve_timed_path p horizon t ≡ (steps >> (moves >> hold)) t
  unfolding reserve_timed_path
  three_loops = rw (success, is_last) refl

  steps-Granted : Granted p.robot_id steps t
  steps-Granted =
      reserve_steps-Granted p.robot_id p.steps t (λ c i m. clear c i (record { there = inl m }))

  moves-Entered : Entered p.robot_id p.steps (steps t).1
  moves-Entered =
      reserve_moves-Entered p.robot_id p.steps (steps t).1 (steps-Granted.grants.guards g)
        (steps_taken p.robot_id p.steps t steps-Granted.returns).held

  hold-Granted : Granted p.robot_id hold (moves (steps t).1).1
  hold-Granted = hold_goal-Granted p.robot_id horizon goal (moves (steps t).1).1 (λ c i m.
      moves-Entered.granted.grants.still c i
        (steps-Granted.grants.still c i (clear c i (record { there = inr (rw is_last m) }))))

  -- A path whose cells no other robot holds is accepted, and the table holds it then.
  pub reserve_timed_path-Granted :
      Granted p.robot_id (reserve_timed_path p horizon) t
      × HasPath p horizon (reserve_timed_path p horizon t).1
  reserve_timed_path-Granted =
      let later =
        Granted-then p.robot_id moves hold (steps t).1 moves-Entered.granted hold-Granted in
      let all = Granted-then p.robot_id steps (moves >> hold) t steps-Granted later in
      let returns : (reserve_timed_path p horizon t).0 ≡ ok tt = rw three_loops all.returns in
      let first = then_runs steps (moves >> hold) t steps-Granted.returns in
      let second = then_runs moves hold (steps t).1 moves-Entered.granted.returns in
      (
        record { returns = returns; grants = rw three_loops all.grants },
        record {
          cells = (path_taken p horizon t returns).held;
          moves = λ a b i m ne.
              rw (three_loops, first, second)
                (hold-Granted.grants.edges_kept a b i p.robot_id
                  (moves-Entered.entered a b i m ne));
        },
      )
