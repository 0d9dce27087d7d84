-- ===== src/Execution/Arrivals.antt =====
-- Routes on which nothing is in the way, for `execute` of robotics/execution/route_executor.py.
use multi_robot_fulfillment.Common.{
  ℕ, zero, suc, ◌+◌, ◌≡◌, ◌≢◌, inl, inr, refl, sym, subst, ◌∙◌, true, false, none, some, List, [],
  ◌∷◌, ◌∈◌, arith, ok, length, nat_eq, Eq-cases, Bool,
}
use multi_robot_fulfillment.Common.Int.{ℤ, ◌≤ℤ◌}
use multi_robot_fulfillment.Common.Float.{◌-f◌}
use multi_robot_fulfillment.Common.Dict.{Dict, lookup, lookup-insert, lookup-insert_self, IsDict}
use multi_robot_fulfillment.Geometry.{Position, position_eq, is_adjacent_to}
use multi_robot_fulfillment.Geometry.Laws.{same-distance}
use multi_robot_fulfillment.Warehouse
use multi_robot_fulfillment.Warehouse.{Warehouse}
use multi_robot_fulfillment.Robot.{Robot, RobotStatus, has_battery_for_move}
use multi_robot_fulfillment.Robot.Bookkeeping.{HasMoved}
use multi_robot_fulfillment.Simulator.{Simulator, first_at, put_robot, move_reason}
use multi_robot_fulfillment.Simulator.Moves.{IsSound, arrives}
use multi_robot_fulfillment.Simulator.Standing.{move_robot-IsSound}
use multi_robot_fulfillment.Planning.Validation.{move_problems}
use multi_robot_fulfillment.Planning.Sound.{legal_step}
use multi_robot_fulfillment.Execution.{Progress, one_more, walk}
use multi_robot_fulfillment.Execution.Walks.{walk_moved}

abbrev pub is_offline : RobotStatus → Bool
is_offline status = elim status [ RobotStatus.offline ↦ true | _ ↦ false ]

pub first_at-nobody :
    (p : Position) (robots : Dict ℕ Robot)
    → IsDict robots
    → ((j : ℕ) (q : Robot) → lookup j robots ≡ some q → q.position ≢ p)
    → first_at p robots ≡ none
unfolding first_at
first_at-nobody p [] ids apart = refl
first_at-nobody p ((j, q) ∷ rest) ids apart = elim (Eq-cases q.position p) [
  | inl (same, _) ↦ absurd (apart j q (ground (arith, nat_eq.beq_iff j j)) same)
  | inr (_, test) ↦
      let others = first_at-nobody p rest ids.1 (λ k other l. apart k other (elim (Eq-cases k j) [
        | inl (same, _) ↦ absurd (ground (arith, ids.0, same, l))
        | inr (_, differ) ↦ ground (arith, differ, l)
      ])) in
      ground (arith, test, others)
]

-- The charge pays for a number of moves: before each, what is left is enough.
abbrev pub Pays : ℕ → ℤ → ℤ → Type 0
Pays zero price charge = Unit
Pays (suc count) price charge = (price ≤ℤ charge) × Pays count price (charge -f price)

abbrev pub CanPay : Robot → ℕ → Type 0
CanPay r count = Pays count r.battery_drain_per_move r.battery_level

can_move : (r : Robot) (count : ℕ) → CanPay r (suc count) → has_battery_for_move r ≡ true
unfolding has_battery_for_move
can_move r count (enough, later) = ground (arith, enough)

can_go_on :
    (r m : Robot) (p : Position) (count : ℕ)
    → HasMoved r m p
    → CanPay r (suc count)
    → CanPay m count
can_go_on r m p count moved (enough, later) =
    subst (λ d. Pays count d m.battery_level) (sym moved.same_drain)
      (subst (Pays count r.battery_drain_per_move) (sym moved.price) later)

module _ (robot_id : ℕ) where
  -- A cell that no obstacle blocks and on which no other robot stands.
  pub record FreeFor (p : Position) (s : Simulator) : Type 0 where
    pub inside : Warehouse.in_bounds s.warehouse p ≡ true
    pub no_static : Warehouse.is_blocked_by_static s.warehouse p ≡ false
    pub no_dynamic : Warehouse.is_blocked_by_dynamic s.warehouse p ≡ false
    pub nobody : (j : ℕ) (q : Robot) → j ≢ robot_id → lookup j s.robots ≡ some q → q.position ≢ p

  put_robot-FreeFor :
      (p : Position) (m : Robot) (s : Simulator) → FreeFor p s → FreeFor p (put_robot robot_id m s)
  put_robot-FreeFor p m s free = record {
    inside = free.inside;
    no_static = free.no_static;
    no_dynamic = free.no_dynamic;
    nobody = λ j q other l. elim (Eq-cases j robot_id) [
      | inl (same, _) ↦ absurd (other same)
      | inr (_, differ) ↦
          free.nobody j q other (ground (arith, lookup-insert robot_id j m s.robots, differ, l))
    ];
  }

  -- An adjacent cell is not the robot's own.
  near_apart : (p q : Position) → is_adjacent_to p q ≡ true → p ≢ q
  unfolding is_adjacent_to
  near_apart p q near same = ground (arith, same-distance p q same)

  free-nobody :
      (p : Position) (r : Robot) (s : Simulator)
      → IsSound s
      → lookup robot_id s.robots ≡ some r
      → is_adjacent_to r.position p ≡ true
      → FreeFor p s
      → first_at p s.robots ≡ none
  free-nobody p r s sound known near free = first_at-nobody p s.robots sound.fleet.ids (λ j q l.
      elim (Eq-cases j robot_id) [
        | inr (other, _) ↦ free.nobody j q other l
        | inl (same, _) ↦ λ here.
            let is_r : q ≡ r =
              ground (arith, known, subst (λ k. lookup k s.robots ≡ some q) same l) in
            near_apart r.position p near (subst (λ x. x.position ≡ p) is_r here)
      ])

  clear_move :
      (p : Position) (r : Robot) (s : Simulator)
      → IsSound s
      → lookup robot_id s.robots ≡ some r
      → is_offline r.status ≡ false
      → is_adjacent_to r.position p ≡ true
      → has_battery_for_move r ≡ true
      → FreeFor p s
      → move_reason r p s ≡ none
  unfolding move_reason
  clear_move p r s sound known working near enough free =
      ground (
        arith,
        free.inside,
        free.no_static,
        free.no_dynamic,
        free-nobody p r s sound known near free,
      )

  -- The loop over cells that are free for the robot is never refused.
  pub walk_free :
      (r : Robot) (rest : List Position) (i : ℕ) (progress : Progress) (s : Simulator)
      → IsSound s
      → lookup robot_id s.robots ≡ some r
      → is_offline r.status ≡ false
      → move_problems i (r.position ∷ rest) ≡ []
      → CanPay r (length rest)
      → ((p : Position) → p ∈ rest → FreeFor p s)
      → (outcome : Progress) × (after : Simulator) × (walk robot_id rest progress s
          ≡ (ok outcome, after))
        × (outcome.refused ≡ progress.refused)
  unfolding walk
  walk_free r [] i progress s sound known working legal enough_charge free =
      (progress, s, refl, refl)
  walk_free r (next ∷ rest) i progress s sound known working legal enough_charge free =
      let (near, legal') = legal_step i r.position next rest legal in
      let enough = can_move r (length rest) enough_charge in
      let clear = clear_move next r s sound known working near enough (free next (inl refl)) in
      let there = arrives robot_id next s r sound known clear in
      let m = there.moved in
      let s' = put_robot robot_id m s in
      let known' = lookup-insert_self robot_id m s.robots in
      let (outcome, after, returns, same) =
        walk_free m rest (i + 1) (one_more m.position progress) s'
          (subst (λ x. IsSound x.1) there.returns (move_robot-IsSound robot_id next s sound)) known'
          (ground (arith, there.has_moved.status))
          (subst (λ p. move_problems (i + 1) (p ∷ rest) ≡ []) (sym there.has_moved.arrived) legal')
          (can_go_on r m next (length rest) there.has_moved enough_charge)
          (λ p on. put_robot-FreeFor p m s (free p (inr on))) in
      (
        outcome,
        after,
        walk_moved robot_id next rest progress s s' m there.returns known' ∙ returns,
        same,
      )
