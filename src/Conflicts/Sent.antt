-- ===== src/Conflicts/Sent.antt =====
-- A path of the coordinator in the eyes of the validator: where it is, and that it has no fault of its
-- own (robotics/coordination/coordinator.py and conflicts.py).
use multi_robot_fulfillment.Common.{
  ℕ, suc, ◌≤◌, ◌≡◌, ◌≢◌, inl, inr, refl, true, some, [], ◌∷◌, arith, nat_eq, ok, last?, Eq-cases,
  sym, subst, ◌∙◌,
}
use multi_robot_fulfillment.Common.Dict.{Dict}
use multi_robot_fulfillment.Geometry.{Position, position_eq}
use multi_robot_fulfillment.Coordination.{TimedStep, TimedPath, position_at, position_in}
use multi_robot_fulfillment.Coordination.Reserved.{Occupies, AtStep}
use multi_robot_fulfillment.Coordination.Positions.{position_at-Occupies, at_last}
use multi_robot_fulfillment.Coordination.Accepted.{MovesAt}
use multi_robot_fulfillment.SpaceTime.{SpaceTimePlanner}
use multi_robot_fulfillment.SpaceTime.Walks.{IsLegal-IsTimed}
use multi_robot_fulfillment.SpaceTime.Reservable.{delivered-IsSchedule, steps_lem, last_lem}
use multi_robot_fulfillment.Coordinator.{arrival_time}
use multi_robot_fulfillment.Coordinator.Clear.{Sent}
use multi_robot_fulfillment.Conflicts.{step_problems}
use multi_robot_fulfillment.Conflicts.Steps.{step_problems-nil, position_in-MovesAt}

module _ (planner : SpaceTimePlanner) (starts goals : Dict ℕ Position) (limit : ℕ) where
  module _ (r : ℕ) (p : TimedPath) (sent : Sent planner starts goals limit r p) where
    open sent use {start, goal, table, arrival, delivered}

    abbrev first : TimedStep
    first = record { position = start; timestep = 0 }

    pub has_steps : p.steps ≡ first ∷ delivered.others
    has_steps = steps_lem planner start goal table r 0 limit p arrival delivered

    pub sent_located :
        (t : ℕ)
        → t ≤ limit
        → (c : Position) × (position_at p t ≡ ok (some c)) × Occupies p limit c t
    sent_located t soon =
        position_at-Occupies p
          (delivered-IsSchedule planner start goal table r 0 limit p arrival delivered) limit t
          (omega arith) soon

    position_at-first : (t : ℕ) → position_at p t ≡ position_in first delivered.others t
    unfolding position_at
    position_at-first t = rw has_steps refl

    pub sent_moved :
        (t : ℕ) (a b : Position)
        → position_at p t ≡ ok (some a)
        → position_at p (suc t) ≡ ok (some b)
        → a ≢ b
        → MovesAt p.steps a b t
    sent_moved t a b says says' ne =
        subst (λ l. MovesAt l a b t) (sym has_steps)
          (position_in-MovesAt first delivered.others t a b
            (IsLegal-IsTimed planner.warehouse table r limit first delivered.others delivered.legal)
            (omega arith) (sym (position_at-first t) ∙ says)
            (sym (position_at-first (suc t)) ∙ says') ne)

    pub is_last : last? p.steps ≡ some (record { position = goal; timestep = arrival })
    is_last = last_lem planner start goal table r 0 limit p arrival delivered

    pub arrives : arrival_time p ≡ arrival
    unfolding arrival_time
    arrives = rw is_last refl

    pub sent_parked : (t : ℕ) → arrival_time p ≤ t → t ≤ limit → Occupies p limit goal t
    sent_parked t late soon = elim (Eq-cases arrival t) [
      | inl (now, _) ↦
          let here = at_last first delivered.others in
          let at_goal : AtStep (first ∷ delivered.others) goal arrival =
            subst (λ (s : TimedStep). AtStep (first ∷ delivered.others) s.position s.timestep)
              delivered.ends here in
          record {
            there = inl (
                subst (λ i. AtStep p.steps goal i) now
                  (subst (λ l. AtStep l goal arrival) (sym has_steps) at_goal));
          }
      | inr (ne, _) ↦ record { there = inr (rw is_last (refl, omega (arith, arrives), soon)) }
    ]

    pub sent_steps-nil : step_problems planner.warehouse (some starts) true r p.steps ≡ []
    sent_steps-nil =
        subst (λ l. step_problems planner.warehouse (some starts) true r l ≡ []) (sym has_steps)
          (step_problems-nil planner.warehouse table r limit starts first delivered.others
            sent.is_start delivered.start_free delivered.legal)
