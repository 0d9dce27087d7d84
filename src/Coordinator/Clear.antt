-- ===== src/Coordinator/Clear.antt =====
-- What holds between two rounds of the coordinator's loop: the table holds every path that was found,
-- and no two of them trade cells.
use multi_robot_fulfillment.Common.{
  ℕ, ◌≡◌, ◌≢◌, ◌⊎◌, inl, inr, refl, true, false, some, List, [], ◌∷◌, ◌++◌, ◌∈◌, arith, nat_eq,
  Eq-cases, mem-append, sym, subst, ◌∙◌,
}
use multi_robot_fulfillment.Common.Dict.{
  Dict, lookup, insert, lookup-insert, lookup-insert_self, IsDict, insert-IsDict,
}
use multi_robot_fulfillment.Geometry.{Position}
use multi_robot_fulfillment.Coordination.{TimedPath, ReservationTable, reserve_timed_path}
use multi_robot_fulfillment.Coordination.Claims.{IsGuarded, Grants}
use multi_robot_fulfillment.Coordination.Accepted.{MovesAt, HasPath, Grants-HasPath}
use multi_robot_fulfillment.SpaceTime.{SpaceTimePlanner}
use multi_robot_fulfillment.SpaceTime.Steps.{IsUnopposed}
use multi_robot_fulfillment.SpaceTime.Answers.{IsDelivered}
use multi_robot_fulfillment.SpaceTime.Reservable.{delivered-IsUnopposed}
use multi_robot_fulfillment.Coordinator.{Pass, begin_pass}

-- The two robots never trade the cells of a move.
abbrev pub NeverSwap : TimedPath → TimedPath → Type 0
NeverSwap p q = (a b : Position) (i : ℕ) → a ≢ b → MovesAt p.steps a b i → ¬ MovesAt q.steps b a i

module _ (planner : SpaceTimePlanner) (starts goals : Dict ℕ Position) (horizon : ℕ) where
  -- The path leads from the robot's start to its goal, around some reservations.
  pub record Sent (robot_id : ℕ) (p : TimedPath) : Type 0 where
    pub start : Position
    pub goal : Position
    pub is_start : lookup robot_id starts ≡ some start
    pub is_goal : lookup robot_id goals ≡ some goal
    pub table : ReservationTable
    pub arrival : ℕ
    pub delivered : IsDelivered planner start goal table robot_id 0 horizon p arrival

  -- The path of a robot was found, or failed and the robot is listed.
  abbrev pub Settled : List ℕ → ℕ → TimedPath → Type 0
  Settled failures robot_id p =
      ((p.success ≡ true) × Sent robot_id p) ⊎ ((p.success ≡ false) × (robot_id ∈ failures))

  pub record IsClear (pass : Pass) : Type 0 where
    pub guards : IsGuarded pass.reservations
    pub once : IsDict pass.timed_paths
    pub settled :
        (r : ℕ) (p : TimedPath)
        → lookup r pass.timed_paths ≡ some p
        → (p.robot_id ≡ r) × Settled pass.failed r p
    pub reserved :
        (r : ℕ) (p : TimedPath)
        → lookup r pass.timed_paths ≡ some p
        → p.success ≡ true
        → HasPath p horizon pass.reservations
    pub no_swap :
        (r r' : ℕ) (p q : TimedPath)
        → r ≢ r'
        → lookup r pass.timed_paths ≡ some p
        → lookup r' pass.timed_paths ≡ some q
        → p.success ≡ true
        → q.success ≡ true
        → NeverSwap p q
    pub known : (r : ℕ) → r ∈ pass.failed → (p : TimedPath) × (lookup r pass.timed_paths ≡ some p)

  pub begin_pass-IsClear : IsClear begin_pass
  begin_pass-IsClear = record {
    guards = record { guarded = λ p q i o h. ground arith };
    once = tt;
    settled = λ r p h. ground arith;
    reserved = λ r p h s. ground arith;
    no_swap = λ r r' p q ne h k s s'. ground arith;
    known = λ r m. absurd m;
  }

  lookup-insert_cases :
      (r r' : ℕ) (p q : TimedPath) (d : Dict ℕ TimedPath)
      → lookup r' (insert r p d) ≡ some q
      → (r' ≡ r) × (p ≡ q) ⊎ (r' ≢ r) × (lookup r' d ≡ some q)
  lookup-insert_cases r r' p q d h = elim (Eq-cases r' r) [
    | inl (same, test) ↦ inl (same, ground (arith, lookup-insert r r' p d))
    | inr (ne, test) ↦ inr (ne, ground (arith, lookup-insert r r' p d))
  ]

  pub still_known :
      (r r' : ℕ) (p : TimedPath) (d : Dict ℕ TimedPath)
      → ((q : TimedPath) × (lookup r' d ≡ some q))
      → (q : TimedPath) × (lookup r' (insert r p d) ≡ some q)
  still_known r r' p d (q, h) = elim (Eq-cases r' r) [
    | inl (same, _) ↦ (p, rw same (lookup-insert_self r p d))
    | inr (_, test) ↦ (q, ground (arith, lookup-insert r r' p d))
  ]

  still-Settled :
      (r' r : ℕ) (p : TimedPath) (failures : List ℕ)
      → Settled failures r' p
      → Settled (failures ++ (r ∷ [])) r' p
  still-Settled r' r p failures (inl sent) = inl sent
  still-Settled r' r p failures (inr (fails, m)) =
      inr (fails, (mem-append failures (r ∷ []) r').1 (inl m))

  module _ (pass : Pass) (r : ℕ) (p : TimedPath) (c : IsClear pass) where
    abbrev pub with_failure : Pass
    with_failure = record pass {
      timed_paths = insert r p pass.timed_paths;
      failed = pass.failed ++ (r ∷ []);
    }

    pub failed-IsClear : p.success ≡ false → p.robot_id ≡ r → IsClear with_failure
    failed-IsClear fails names = record {
      guards = c.guards;
      once = insert-IsDict r p pass.timed_paths c.once;
      settled = λ r' q h. elim (lookup-insert_cases r r' p q pass.timed_paths h) [
        | inl (same, is_p) ↦ (
          rw (same, ← is_p) names,
          inr (rw (same, ← is_p) (fails, (mem-append pass.failed (r ∷ []) r).1 (inr (inl refl)))),
        )
        | inr (ne, old) ↦
            let (name, is_settled) = c.settled r' q old in
            (name, still-Settled r' r q pass.failed is_settled)
      ];
      reserved = λ r' q h s. elim (lookup-insert_cases r r' p q pass.timed_paths h) [
        | inl (same, is_p) ↦ absurd (ground arith)
        | inr (ne, old) ↦ c.reserved r' q old s
      ];
      no_swap = λ a b q q' ne h k s s'. elim (lookup-insert_cases r a p q pass.timed_paths h) [
        | inl (same, is_p) ↦ absurd (ground arith)
        | inr (_, old) ↦ elim (lookup-insert_cases r b p q' pass.timed_paths k) [
          | inl (same, is_p) ↦ absurd (ground arith)
          | inr (_, old') ↦ c.no_swap a b q q' ne old old' s s'
        ]
      ];
      known = λ r' m. elim ((mem-append pass.failed (r ∷ []) r').0 m) [
        | inl old ↦ still_known r r' p pass.timed_paths (c.known r' old)
        | inr (inl same) ↦ (p, rw same (lookup-insert_self r p pass.timed_paths))
        | inr (inr none_left) ↦ absurd none_left
      ];
    }

    abbrev pub with_path : Pass
    with_path = record pass {
      reservations = (reserve_timed_path p horizon pass.reservations).1;
      timed_paths = insert r p pass.timed_paths;
    }

    module _ (sent : Sent r p) (same_table : sent.table ≡ pass.reservations) where
      abbrev Unopposed : Type 0
      Unopposed =
          (a b : Position) (i : ℕ)
          → MovesAt p.steps a b i
          → a ≢ b
          → IsUnopposed pass.reservations r a b i

      sent-IsUnopposed : Unopposed
      sent-IsUnopposed =
          subst
            (λ t. (a b : Position) (i : ℕ) → MovesAt p.steps a b i → a ≢ b → IsUnopposed t r a b i)
            same_table
            (delivered-IsUnopposed planner sent.start sent.goal sent.table r 0 horizon p
              sent.arrival sent.delivered)

      -- A path that was entered before never trades cells with the new one.
      old_no_swap :
          (r' : ℕ) (q : TimedPath)
          → r' ≢ r
          → lookup r' pass.timed_paths ≡ some q
          → q.success ≡ true
          → NeverSwap q p
      old_no_swap r' q ne old s a b i differ m m' =
          let held = (c.reserved r' q old s).moves a b i m differ in
          let clear = sent-IsUnopposed b a i m' (λ e. differ (sym e)) in
          let name = (c.settled r' q old).0 in ground arith

      pub found-IsClear :
          p.success ≡ true
          → p.robot_id ≡ r
          → Grants p.robot_id pass.reservations with_path.reservations
          → HasPath p horizon with_path.reservations
          → IsClear with_path
      found-IsClear success names grants has = record {
        guards = grants.guards c.guards;
        once = insert-IsDict r p pass.timed_paths c.once;
        settled = λ r' q h. elim (lookup-insert_cases r r' p q pass.timed_paths h) [
          | inl (same, is_p) ↦ (rw (same, ← is_p) names, inl (rw (same, ← is_p) (success, sent)))
          | inr (ne, old) ↦ c.settled r' q old
        ];
        reserved = λ r' q h s. elim (lookup-insert_cases r r' p q pass.timed_paths h) [
          | inl (same, is_p) ↦ rw (← is_p) has
          | inr (ne, old) ↦
              Grants-HasPath p.robot_id q horizon pass.reservations with_path.reservations grants
                (c.reserved r' q old s)
        ];
        no_swap = λ a b q q' ne h k s s'. elim (lookup-insert_cases r a p q pass.timed_paths h) [
          | inl (same, is_p) ↦ elim (lookup-insert_cases r b p q' pass.timed_paths k) [
            | inl (same', _) ↦ absurd (ne (same ∙ sym same'))
            | inr (other, old) ↦ λ x y i differ m m'.
                old_no_swap b q' other old s' y x i (λ e. differ (sym e)) m' (rw is_p m)
          ]
          | inr (other, old) ↦ elim (lookup-insert_cases r b p q' pass.timed_paths k) [
            | inl (_, is_p) ↦
                λ x y i differ m m'. old_no_swap a q other old s x y i differ m (rw is_p m')
            | inr (_, old') ↦ c.no_swap a b q q' ne old old' s s'
          ]
        ];
        known = λ r' m. still_known r r' p pass.timed_paths (c.known r' m);
      }
