-- ===== src/Conflicts/Steps.antt =====
-- The checks of a single path: `find_coordination_problems` of robotics/coordination/conflicts.py on
-- a path over legal steps, and where such a path is between two timesteps.
use multi_robot_fulfillment.Common.{
  ℕ, zero, suc, ◌+◌, ◌-◌, ◌≤◌, ◌≡◌, ◌≢◌, inl, inr, refl, true, some, List, [], ◌∷◌, arith, nat_eq,
  leb, Result, Option, ok, Bool-cases, sym, subst,
}
use multi_robot_fulfillment.Common.Dict.{Dict, lookup}
use multi_robot_fulfillment.Geometry.{Position, position_eq, position_beq_iff}
use multi_robot_fulfillment.Geometry.Laws.{same-distance, adjacent-distance}
use multi_robot_fulfillment.Warehouse
use multi_robot_fulfillment.Warehouse.{Warehouse}
use multi_robot_fulfillment.Warehouse.Neighbors.{is_traversable-in_bounds}
use multi_robot_fulfillment.Coordination.{
  TimedStep, ReservationTable, last_step, step_at, position_in,
}
use multi_robot_fulfillment.Coordination.Positions.{IsTimed, step_between}
use multi_robot_fulfillment.Coordination.Accepted.{MovesAt}
use multi_robot_fulfillment.SpaceTime.Walks.{IsLegal, IsLegal-IsTimed}
use multi_robot_fulfillment.Coordinator.Counts.{last-timestep}
use multi_robot_fulfillment.Conflicts.{
  start_problems, timestep_problems, cell_problems, transition_problems, step_problems,
}

timestep_problems-nil :
    (r i : ℕ) (s : TimedStep) (ss : List TimedStep)
    → IsTimed s ss
    → timestep_problems r s.timestep i (s ∷ ss) ≡ []
unfolding timestep_problems
timestep_problems-nil r i s [] timed = ground arith
timestep_problems-nil r i s (q ∷ qs) (next, timed) = ground (
  arith,
  subst (λ t. timestep_problems r t (suc i) (q ∷ qs) ≡ []) next
      (timestep_problems-nil r (suc i) q qs timed),
)

same_place :
    (p q : Position) (says : Result (Option Position))
    → says ≡ ok (some p)
    → says ≡ ok (some q)
    → p ≡ q
same_place p q says here there = ground arith

module _ (w : Warehouse) (table : ReservationTable) (robot_id horizon : ℕ) where
  cell_problems-nil :
      (i : ℕ) (s : TimedStep) (ss : List TimedStep)
      → Warehouse.is_traversable w s.position ≡ true
      → IsLegal w table robot_id horizon s ss
      → cell_problems w true robot_id i (s ∷ ss) ≡ []
  unfolding cell_problems
  cell_problems-nil i s [] free legal = ground (arith, is_traversable-in_bounds w s.position free)
  cell_problems-nil i s (q ∷ qs) free (a, legal) = ground (
    arith,
    is_traversable-in_bounds w s.position free,
    cell_problems-nil (suc i) q qs a.free legal,
  )

  transition_problems-nil :
      (i : ℕ) (s : TimedStep) (ss : List TimedStep)
      → IsLegal w table robot_id horizon s ss
      → transition_problems robot_id i (s ∷ ss) ≡ []
  unfolding transition_problems
  transition_problems-nil i s [] legal = refl
  transition_problems-nil i s (q ∷ qs) (a, legal) =
      let rest = transition_problems-nil (suc i) q qs legal in
      elim a.way [
        | inl stays ↦ ground (arith, same-distance s.position q.position (sym stays))
        | inr (near, _) ↦ ground (arith, adjacent-distance s.position q.position near)
      ]

  -- A legal path from the robot's start has no fault of its own.
  pub step_problems-nil :
      (starts : Dict ℕ Position) (s : TimedStep) (ss : List TimedStep)
      → lookup robot_id starts ≡ some s.position
      → Warehouse.is_traversable w s.position ≡ true
      → IsLegal w table robot_id horizon s ss
      → step_problems w (some starts) true robot_id (s ∷ ss) ≡ []
  unfolding step_problems start_problems
  step_problems-nil starts s ss at_start free legal = ground (
    arith,
    position_beq_iff s.position s.position,
    timestep_problems-nil robot_id 0 s ss (IsLegal-IsTimed w table robot_id horizon s ss legal),
    cell_problems-nil 0 s ss free legal,
    transition_problems-nil 0 s ss legal,
  )

-- The last step stands at the last timestep.
step_at-last :
    (k : ℕ) (s : TimedStep) (ss : List TimedStep)
    → IsTimed s ss
    → s.timestep + k ≡ (last_step s ss).timestep
    → step_at k s ss ≡ some (last_step s ss)
step_at-last zero s [] timed e = refl
step_at-last zero s (q ∷ qs) (next, timed) e = absurd (omega (arith, last-timestep q qs timed))
step_at-last (suc k) s [] timed e = absurd (omega arith)
step_at-last (suc k) s (q ∷ qs) (next, timed) e = step_at-last k q qs timed (omega arith)

position_in-step_at :
    (k : ℕ) (s q : TimedStep) (ss : List TimedStep)
    → IsTimed s ss
    → s.timestep + k ≤ (last_step s ss).timestep
    → step_at k s ss ≡ some q
    → position_in s ss (s.timestep + k) ≡ ok (some q.position)
position_in-step_at zero s q ss timed le h = ground arith
position_in-step_at (suc k) s q ss timed le h =
    elim (Bool-cases (leb (last_step s ss).timestep (s.timestep + suc k))) [
      | inl now ↦ ground (arith, step_at-last (suc k) s ss timed)
      | inr later ↦
          let back : s.timestep + suc k - s.timestep ≡ suc k = omega arith in ground (arith, h)
    ]

two_steps :
    (k : ℕ) (s q q' : TimedStep) (ss : List TimedStep)
    → IsTimed s ss
    → step_at k s ss ≡ some q
    → step_at (suc k) s ss ≡ some q'
    → MovesAt (s ∷ ss) q.position q'.position (s.timestep + k)
two_steps zero s q q' [] timed h h' = absurd (ground arith)
two_steps zero s q q' (x ∷ xs) timed h h' = inl (ground arith, ground arith, ground arith)
two_steps (suc k) s q q' [] timed h h' = absurd (ground arith)
two_steps (suc k) s q q' (x ∷ xs) (next, timed) h h' =
    let shift : x.timestep + k ≡ s.timestep + suc k = omega arith in
    inr (
      subst (λ t. MovesAt (x ∷ xs) q.position q'.position t) shift
        (two_steps k x q q' xs timed h h'))

position_in-late :
    (s : TimedStep) (ss : List TimedStep) (t : ℕ)
    → IsTimed s ss
    → (last_step s ss).timestep ≤ t
    → position_in s ss t ≡ ok (some (last_step s ss).position)
position_in-late s [] t timed le = ground arith
position_in-late s (q ∷ qs) t (next, timed) le = ground (arith, last-timestep q qs timed)

-- A robot that is on two cells at two timesteps makes a move in between.
pub position_in-MovesAt :
    (s : TimedStep) (ss : List TimedStep) (t : ℕ) (a b : Position)
    → IsTimed s ss
    → s.timestep ≤ t
    → position_in s ss t ≡ ok (some a)
    → position_in s ss (suc t) ≡ ok (some b)
    → a ≢ b
    → MovesAt (s ∷ ss) a b t
position_in-MovesAt s ss t a b timed late says says' ne =
    elim (Bool-cases (leb (last_step s ss).timestep t)) [
      | inl arrived ↦
          let here = position_in-late s ss t timed (ground arith) in
          let there = position_in-late s ss (suc t) timed (ground arith) in
          absurd (ne (ground arith))
      | inr moving ↦
          let k = t - s.timestep in
          let at_t : s.timestep + k ≡ t = omega arith in
          let at_next : s.timestep + suc k ≡ suc t = omega arith in
          let (q, found, _) = step_between k s ss timed (ground arith) in
          let (q', found', _) = step_between (suc k) s ss timed (ground arith) in
          let here =
            subst (λ i. position_in s ss i ≡ ok (some q.position)) at_t
              (position_in-step_at k s q ss timed (ground arith) found) in
          let there =
            subst (λ i. position_in s ss i ≡ ok (some q'.position)) at_next
              (position_in-step_at (suc k) s q' ss timed (ground arith) found') in
          let from = same_place q.position a (position_in s ss t) here says in
          let to = same_place q'.position b (position_in s ss (suc t)) there says' in
          subst (λ c. MovesAt (s ∷ ss) c b t) from
            (subst (λ c. MovesAt (s ∷ ss) q.position c t) to
              (subst (λ i. MovesAt (s ∷ ss) q.position q'.position i) at_t
                (two_steps k s q q' ss timed found found')))
    ]
