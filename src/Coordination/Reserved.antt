-- ===== src/Coordination/Reserved.antt =====
-- Paths that one table has taken share no cell at any timestep: `reserve_timed_path` of
-- robotics/coordination/reservation_table.py, called for one robot after another as the coordinator
-- does.
use multi_robot_fulfillment.Common.{
  ℕ, zero, suc, ◌+◌, ◌-◌, ◌≤◌, ◌<◌, ◌≡◌, ◌≢◌, ◌⊎◌, inl, inr, refl, true, false, Option, none, some,
  List, [], ◌∷◌, ◌∈◌, arith, ok, Action, ◌>>◌, Bool-cases, Result-cases, Eq-cases, nat_eq, ◌==◌,
  last?,
}
use multi_robot_fulfillment.Geometry.{Position, position_eq}
use multi_robot_fulfillment.Coordination.{
  TimedStep, TimedPath, ReservationTable, reserve_vertex, reserve_edge, reserve_steps,
  reserve_moves, hold_cell, hold_goal, reserve_timed_path, reserve_all,
}
use multi_robot_fulfillment.Coordination.Vertices.{
  holder, Keeps, Keeps-refl, Keeps-trans, reserve_vertex-Keeps, reserve_vertex-holder,
}

-- What a call did that returned: it held `claims` for the robot and kept the others' cells.
abbrev pub Claims : Type 1
Claims = Position → ℕ → Type 0

pub record Takes (robot_id : ℕ) (claims : Claims) (t t' : ReservationTable) : Type 0 where
  pub keeps : Keeps t t'
  pub held :
      (cell : Position) (timestep : ℕ)
      → claims cell timestep
      → holder cell timestep t' ≡ some robot_id

-- The cells of the steps, and the goal from arrival through the horizon.
abbrev pub AtStep : List TimedStep → Position → ℕ → Type 0
AtStep [] cell timestep = ⊥
AtStep (s ∷ ss) cell timestep =
    ((s.position ≡ cell) × (s.timestep ≡ timestep)) ⊎ AtStep ss cell timestep

abbrev pub AtGoal : Option TimedStep → ℕ → Position → ℕ → Type 0
AtGoal none horizon cell timestep = ⊥
AtGoal (some goal) horizon cell timestep =
    (goal.position ≡ cell) × (goal.timestep < timestep) × (timestep ≤ horizon)

-- The robot of the path is on the cell at the timestep, under way or parked on its goal.
pub record Occupies (p : TimedPath) (horizon : ℕ) (cell : Position) (timestep : ℕ) : Type 0 where
  pub there : AtStep p.steps cell timestep ⊎ AtGoal (last? p.steps) horizon cell timestep

-- A sequence returns when both of its calls do.
module _ (first second : Action ReservationTable (Unit {0})) (t : ReservationTable) where
  both_return :
      ((first >> second) t).0 ≡ ok tt
      → ((first t).0 ≡ ok tt)
        × ((second (first t).1).0 ≡ ok tt)
        × (((first >> second) t).1 ≡ (second (first t).1).1)
  both_return h = elim (Result-cases (first t).0) [
    | inl (_, returned) ↦ (returned, ground arith, ground arith)
    | inr (e, raised) ↦ absurd (ground arith)
  ]

pub steps_taken :
    (robot_id : ℕ) (steps : List TimedStep) (t : ReservationTable)
    → (reserve_steps robot_id steps t).0 ≡ ok tt
    → Takes robot_id (AtStep steps) t (reserve_steps robot_id steps t).1
unfolding reserve_steps
steps_taken robot_id [] t h = record { keeps = Keeps-refl t; held = λ c i m. absurd m }
steps_taken robot_id (s ∷ ss) t h =
    let claim = reserve_vertex s.position s.timestep robot_id in
    let (first, rest, same) = both_return claim (reserve_steps robot_id ss) t h in
    let taken = steps_taken robot_id ss (claim t).1 rest in
    let here = reserve_vertex-holder s.position s.timestep robot_id t first in
    rw same (record {
      keeps = Keeps-trans (reserve_vertex-Keeps s.position s.timestep robot_id t) taken.keeps;
      held = λ c i. elim [
        | inl (cell, time) ↦ taken.keeps.kept c i robot_id (rw (← cell, ← time) here)
        | inr m ↦ taken.held c i m
      ];
    })

-- Reservations of edges leave the cells alone.
reserve_edge-Keeps :
    (from_cell to_cell : Position) (timestep robot_id : ℕ) (t : ReservationTable)
    → Keeps t (reserve_edge from_cell to_cell timestep robot_id t).1
unfolding reserve_edge
reserve_edge-Keeps from_cell to_cell timestep robot_id t = record { kept = λ c i o h. ground arith }

module _ (robot_id : ℕ) (a b : TimedStep) (ss : List TimedStep) (t : ReservationTable) where
  pub on_wait :
      (a.position == b.position) ≡ true
      → reserve_moves robot_id (a ∷ b ∷ ss) t ≡ reserve_moves robot_id (b ∷ ss) t
  unfolding reserve_moves
  on_wait h = rw h refl

  pub on_move :
      (a.position == b.position) ≡ false
      → reserve_moves robot_id (a ∷ b ∷ ss) t
        ≡ (reserve_edge a.position b.position a.timestep robot_id
              >> reserve_moves robot_id (b ∷ ss))
            t
  unfolding reserve_moves
  on_move h = rw h refl

no_moves : (robot_id : ℕ) (t : ReservationTable) → Keeps t (reserve_moves robot_id [] t).1
unfolding reserve_moves
no_moves robot_id t = Keeps-refl t

one_step :
    (robot_id : ℕ) (a : TimedStep) (t : ReservationTable)
    → Keeps t (reserve_moves robot_id (a ∷ []) t).1
unfolding reserve_moves
one_step robot_id a t = Keeps-refl t

moves_taken :
    (robot_id : ℕ) (steps : List TimedStep) (t : ReservationTable)
    → (reserve_moves robot_id steps t).0 ≡ ok tt
    → Keeps t (reserve_moves robot_id steps t).1
moves_taken robot_id [] t h = no_moves robot_id t
moves_taken robot_id (a ∷ []) t h = one_step robot_id a t
moves_taken robot_id (a ∷ b ∷ ss) t h = elim (Bool-cases (a.position == b.position)) [
  | inl same ↦
      let wait = on_wait robot_id a b ss t same in
      let rest = moves_taken robot_id (b ∷ ss) t (ground (arith, wait)) in rw wait rest
  | inr other ↦
      let step = on_move robot_id a b ss t other in
      let edge = reserve_edge a.position b.position a.timestep robot_id in
      let returned : ((edge >> reserve_moves robot_id (b ∷ ss)) t).0 ≡ ok tt = rw (← step) h in
      let (first, rest, same) = both_return edge (reserve_moves robot_id (b ∷ ss)) t returned in
      rw (step, same)
        (Keeps-trans (reserve_edge-Keeps a.position b.position a.timestep robot_id t)
          (moves_taken robot_id (b ∷ ss) (edge t).1 rest))
]

hold_taken :
    (cell : Position) (timestep count robot_id : ℕ) (t : ReservationTable)
    → (hold_cell cell timestep count robot_id t).0 ≡ ok tt
    → Takes robot_id
        (λ c i. (cell ≡ c) × (timestep ≤ i) × (i < timestep + count))
        t
        (hold_cell cell timestep count robot_id t).1
unfolding hold_cell
hold_taken cell timestep zero robot_id t h = record {
  keeps = Keeps-refl t;
  held = λ c i m. absurd (omega (arith, m.1));
}
hold_taken cell timestep (suc count) robot_id t h =
    let claim = reserve_vertex cell timestep robot_id in
    let (first, rest, same) =
      both_return claim (hold_cell cell (timestep + 1) count robot_id) t h in
    let taken = hold_taken cell (timestep + 1) count robot_id (claim t).1 rest in
    let here = reserve_vertex-holder cell timestep robot_id t first in
    rw same (record {
      keeps = Keeps-trans (reserve_vertex-Keeps cell timestep robot_id t) taken.keeps;
      held = λ c i m. elim (Eq-cases i timestep) [
        | inl (now, _) ↦ taken.keeps.kept c i robot_id (rw (now, ← m.0) here)
        | inr (later, _) ↦ taken.held c i (m.0, omega arith, omega arith)
      ];
    })

goal_taken :
    (robot_id horizon : ℕ) (goal : Option TimedStep) (t : ReservationTable)
    → (hold_goal robot_id horizon goal t).0 ≡ ok tt
    → Takes robot_id (AtGoal goal horizon) t (hold_goal robot_id horizon goal t).1
unfolding hold_goal
goal_taken robot_id horizon none t h = absurd (ground arith)
goal_taken robot_id horizon (some goal) t h =
    let taken =
      hold_taken goal.position (goal.timestep + 1) (horizon - goal.timestep) robot_id t h in
    record {
      keeps = taken.keeps;
      held = λ c i m. taken.held c i (m.0, omega (arith, m.1), omega (arith, m.2));
    }

pub path_taken :
    (p : TimedPath) (horizon : ℕ) (t : ReservationTable)
    → (reserve_timed_path p horizon t).0 ≡ ok tt
    → Takes p.robot_id (Occupies p horizon) t (reserve_timed_path p horizon t).1
unfolding reserve_timed_path
path_taken p horizon t h = elim (Bool-cases p.success) [
  | inr failed ↦ absurd (ground arith)
  | inl success ↦
      let steps = reserve_steps p.robot_id p.steps in
      let moves = reserve_moves p.robot_id p.steps in
      let goal = hold_goal p.robot_id horizon (last? p.steps) in
      let returned : ((steps >> (moves >> goal)) t).0 ≡ ok tt = ground arith in
      let (first, others, same) = both_return steps (moves >> goal) t returned in
      let (second, third, same') = both_return moves goal (steps t).1 others in
      let on_steps = steps_taken p.robot_id p.steps t first in
      let on_moves = moves_taken p.robot_id p.steps (steps t).1 second in
      let on_goal = goal_taken p.robot_id horizon (last? p.steps) (moves (steps t).1).1 third in
      let later = Keeps-trans on_moves on_goal.keeps in
      rw (success, same, same')
        (record {
          keeps = Keeps-trans on_steps.keeps later;
          held = λ c i m. elim m.there [
            | inl there ↦ later.kept c i p.robot_id (on_steps.held c i there)
            | inr parked ↦ on_goal.held c i parked
          ];
        })
]

all_taken :
    (ps : List TimedPath) (horizon : ℕ) (t : ReservationTable)
    → (reserve_all ps horizon t).0 ≡ ok tt
    → Keeps t (reserve_all ps horizon t).1
      × ((p : TimedPath) (cell : Position) (timestep : ℕ)
          → p ∈ ps
          → Occupies p horizon cell timestep
          → holder cell timestep (reserve_all ps horizon t).1 ≡ some p.robot_id)
unfolding reserve_all
all_taken [] horizon t h = (Keeps-refl t, λ p c i m. absurd m)
all_taken (p ∷ ps) horizon t h =
    let (first, others, same) =
      both_return (reserve_timed_path p horizon) (reserve_all ps horizon) t h in
    let taken = path_taken p horizon t first in
    let (keeps, held) = all_taken ps horizon (reserve_timed_path p horizon t).1 others in
    rw same (
      Keeps-trans taken.keeps keeps,
      λ q c i. elim [
        | inl is_p ↦
            λ there. rw is_p (keeps.kept c i p.robot_id (taken.held c i (rw (← is_p) there)))
        | inr m ↦ held q c i m
      ],
    )

-- When one table has taken the paths of several robots, no two of the robots are on one cell at one
-- timestep, under way or parked on their goals, up to the horizon.
pub reserve_all_apart :
    (ps : List TimedPath) (horizon : ℕ) (t : ReservationTable) (p q : TimedPath) (cell : Position)
    (timestep : ℕ)
    → (reserve_all ps horizon t).0 ≡ ok tt
    → p ∈ ps
    → q ∈ ps
    → p.robot_id ≢ q.robot_id
    → Occupies p horizon cell timestep
    → ¬ Occupies q horizon cell timestep
reserve_all_apart ps horizon t p q cell timestep returned in_p in_q other here there =
    let (_, held) = all_taken ps horizon t returned in
    let first = held p cell timestep in_p here in
    let second = held q cell timestep in_q there in other (ground arith)
