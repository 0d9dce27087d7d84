-- ===== src/Coordination/Positions.antt =====
-- Where the robots of reserved paths are: `position_at` of robotics/coordination/timed_path.py.
use multi_robot_fulfillment.Common.{
  ℕ, zero, suc, ◌+◌, ◌-◌, ◌≤◌, ◌≡◌, ◌≢◌, ◌⊎◌, inl, inr, refl, some, List, [], ◌∷◌, ◌∈◌, arith, ok,
  Bool-cases, Eq-cases, nat_eq, leb, last?, sym, subst,
}
use multi_robot_fulfillment.Geometry.{Position}
use multi_robot_fulfillment.Coordination.{
  TimedStep, TimedPath, ReservationTable, last_step, step_at, position_in, position_at, reserve_all,
}
use multi_robot_fulfillment.Coordination.Reserved.{AtStep, AtGoal, Occupies, reserve_all_apart}

-- Each step is one timestep after the one before it.
abbrev pub IsTimed : TimedStep → List TimedStep → Type 0
IsTimed s [] = Unit
IsTimed s (q ∷ qs) = (q.timestep ≡ suc s.timestep) × IsTimed q qs

-- A path that was found: it has steps, one per timestep.
pub record IsSchedule (p : TimedPath) : Type 0 where
  pub first : TimedStep
  pub others : List TimedStep
  pub steps : p.steps ≡ first ∷ others
  pub timed : IsTimed first others

pub last-last_step : (s : TimedStep) (ss : List TimedStep) → last? (s ∷ ss) ≡ some (last_step s ss)
last-last_step s [] = refl
last-last_step s (q ∷ qs) = last-last_step q qs

pub at_last :
    (s : TimedStep) (ss : List TimedStep)
    → AtStep (s ∷ ss) (last_step s ss).position (last_step s ss).timestep
at_last s [] = inl (refl, refl)
at_last s (q ∷ qs) = inr (at_last q qs)

-- Between the first and the last timestep there is a step for each one.
pub step_between :
    (k : ℕ) (s : TimedStep) (ss : List TimedStep)
    → IsTimed s ss
    → s.timestep + k ≤ (last_step s ss).timestep
    → (q : TimedStep) × (step_at k s ss ≡ some q) × AtStep (s ∷ ss) q.position (s.timestep + k)
step_between zero s ss timed le = (s, refl, inl (refl, omega arith))
step_between (suc k) s [] timed le = absurd (omega arith)
step_between (suc k) s (q ∷ qs) (next, timed) le =
    let (r, found, there) = step_between k q qs timed (omega arith) in
    let shift : q.timestep + k ≡ s.timestep + suc k = omega arith in
    (r, found, inr (subst (λ t. AtStep (q ∷ qs) r.position t) shift there))

position_in_lem :
    (s : TimedStep) (ss : List TimedStep) (horizon timestep : ℕ)
    → IsTimed s ss
    → s.timestep ≤ timestep
    → timestep ≤ horizon
    → (cell : Position) × (position_in s ss timestep ≡ ok (some cell))
      × (AtStep (s ∷ ss) cell timestep ⊎ AtGoal (last? (s ∷ ss)) horizon cell timestep)
position_in_lem s ss horizon timestep timed late soon =
    elim (Bool-cases (leb timestep s.timestep)) [
      | inl early ↦ (s.position, ground arith, inl (inl (refl, ground arith)))
      | inr started ↦ elim (Bool-cases (leb (last_step s ss).timestep timestep)) [
        | inl arrived ↦ (
          (last_step s ss).position,
          ground arith,
          elim (Eq-cases (last_step s ss).timestep timestep) [
            | inl (now, _) ↦
                inl (subst (λ t. AtStep (s ∷ ss) (last_step s ss).position t) now (at_last s ss))
            | inr (before, _) ↦ inr (rw (last-last_step s ss) (refl, ground arith, soon))
          ],
        )
        | inr moving ↦
            let (q, found, there) =
              step_between (timestep - s.timestep) s ss timed (ground arith) in
            let shift : s.timestep + (timestep - s.timestep) ≡ timestep = omega arith in
            (
              q.position,
              ground (arith, found),
              inl (subst (λ t. AtStep (s ∷ ss) q.position t) shift there),
            )
      ]
    ]

-- From its first timestep through the horizon a robot is where its path occupies a cell.
pub position_at-Occupies :
    (p : TimedPath) (schedule : IsSchedule p) (horizon timestep : ℕ)
    → schedule.first.timestep ≤ timestep
    → timestep ≤ horizon
    → (cell : Position) × (position_at p timestep ≡ ok (some cell))
      × Occupies p horizon cell timestep
unfolding position_at
position_at-Occupies p schedule horizon timestep late soon =
    let (cell, says, there) =
      position_in_lem schedule.first schedule.others horizon timestep schedule.timed late soon in
    (cell, rw schedule.steps says, record { there = rw schedule.steps there })

-- Take two paths of different robots that have a step and then one step for each timestep, with no
-- timestep left out. When one table has taken both among the paths of several robots, then at any
-- timestep from which both have started, through the horizon, `position_at` gives two different cells.
pub position_at_apart :
    (ps : List TimedPath) (horizon : ℕ) (t : ReservationTable) (p q : TimedPath)
    (schedule : IsSchedule p) (schedule' : IsSchedule q) (timestep : ℕ)
    → (reserve_all ps horizon t).0 ≡ ok tt
    → p ∈ ps
    → q ∈ ps
    → p.robot_id ≢ q.robot_id
    → schedule.first.timestep ≤ timestep
    → schedule'.first.timestep ≤ timestep
    → timestep ≤ horizon
    → (a b : Position) × (position_at p timestep ≡ ok (some a))
      × (position_at q timestep ≡ ok (some b))
      × (a ≢ b)
position_at_apart ps horizon t p q schedule schedule' timestep returned in_p in_q other late late'
      soon =
    let (a, says, here) = position_at-Occupies p schedule horizon timestep late soon in
    let (b, says', there) = position_at-Occupies q schedule' horizon timestep late' soon in
    (
      a,
      b,
      says,
      says',
      λ same.
          reserve_all_apart ps horizon t p q a timestep returned in_p in_q other here
            (subst (λ c. Occupies q horizon c timestep) (sym same) there),
    )
