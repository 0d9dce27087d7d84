-- ===== src/Simulator/Fleet.antt =====
-- The fleet on the floor: what holds of the robots that a simulator has registered.
use multi_robot_fulfillment.Common.{
  ℕ, ◌≡◌, ◌≢◌, ◌⊎◌, inl, inr, true, none, some, [], ◌∷◌, arith, nat_eq, Eq-cases, sym, ◌∙◌,
}
use multi_robot_fulfillment.Common.Dict.{
  Dict, lookup, insert, erase, IsDict, lookup-insert, lookup-erase_ne, insert-IsDict, erase-IsDict,
  lookup-erase_self,
}
use multi_robot_fulfillment.Geometry.{Position, position_eq}
use multi_robot_fulfillment.Warehouse
use multi_robot_fulfillment.Warehouse.{Warehouse}
use multi_robot_fulfillment.Robot.{Robot}
use multi_robot_fulfillment.Robot.Battery.{IsSane}
use multi_robot_fulfillment.Simulator.{first_at}

-- Each robot is registered once under its own name, stands alone on a free cell of the floor, and
-- has a charge and a payload within their bounds.
pub record IsFleet (w : Warehouse) (robots : Dict ℕ Robot) : Type 0 where
  pub ids : IsDict robots
  pub named : (i : ℕ) (r : Robot) → lookup i robots ≡ some r → r.robot_id ≡ i
  pub alone :
      (i j : ℕ) (r q : Robot)
      → lookup i robots ≡ some r
      → lookup j robots ≡ some q
      → r.position ≡ q.position
      → i ≡ j
  pub free :
      (i : ℕ) (r : Robot) → lookup i robots ≡ some r → Warehouse.is_traversable w r.position ≡ true
  pub sane : (i : ℕ) (r : Robot) → lookup i robots ≡ some r → IsSane r

-- A search that finds nobody on a cell has seen every robot.
pub first_at-none :
    (p : Position) (robots : Dict ℕ Robot) (i : ℕ) (r : Robot)
    → first_at p robots ≡ none
    → lookup i robots ≡ some r
    → r.position ≢ p
unfolding first_at
first_at-none p [] i r h l = absurd (ground arith)
first_at-none p ((j, q) ∷ rest) i r h l = elim (Eq-cases q.position p) [
  | inl (_, test) ↦ absurd (ground arith)
  | inr (other, test) ↦ elim (Eq-cases i j) [
    | inl (_, same) ↦ let is_q : q ≡ r = ground arith in rw (← is_q) other
    | inr (_, differ) ↦ first_at-none p rest i r (ground arith) (ground arith)
  ]
]

module _ (w : Warehouse) (robots : Dict ℕ Robot) (fleet : IsFleet w robots) where
  lookup_after :
      (i j : ℕ) (r q : Robot)
      → lookup j (insert i r robots) ≡ some q
      → (j ≡ i) × (q ≡ r) ⊎ (j ≢ i) × (lookup j robots ≡ some q)
  lookup_after i j r q l = elim (Eq-cases j i) [
    | inl (same, test) ↦ inl (same, ground (arith, lookup-insert i j r robots))
    | inr (other, test) ↦ inr (other, ground (arith, lookup-insert i j r robots))
  ]

  -- A robot may be put on a free cell where no other robot stands.
  pub insert-IsFleet :
      (i : ℕ) (r : Robot)
      → r.robot_id ≡ i
      → IsSane r
      → Warehouse.is_traversable w r.position ≡ true
      → ((j : ℕ) (q : Robot) → j ≢ i → lookup j robots ≡ some q → q.position ≢ r.position)
      → IsFleet w (insert i r robots)
  insert-IsFleet i r name sane free apart = record {
    ids = insert-IsDict i r robots fleet.ids;
    named = λ j q l. elim (lookup_after i j r q l) [
      | inl (same, is_r) ↦ rw (same, is_r) name
      | inr (_, old) ↦ fleet.named j q old
    ];
    alone = λ j k q s l m here. elim (lookup_after i j r q l) [
      | inl (same, is_r) ↦ elim (lookup_after i k r s m) [
        | inl (same', _) ↦ same ∙ sym same'
        | inr (other, old) ↦ absurd (apart k s other old (sym (rw (← is_r) here)))
      ]
      | inr (other, old) ↦ elim (lookup_after i k r s m) [
        | inl (same', is_r) ↦ absurd (apart j q other old (rw (← is_r) here))
        | inr (_, old') ↦ fleet.alone j k q s old old' here
      ]
    ];
    free = λ j q l. elim (lookup_after i j r q l) [
      | inl (_, is_r) ↦ rw is_r free
      | inr (_, old) ↦ fleet.free j q old
    ];
    sane = λ j q l. elim (lookup_after i j r q l) [
      | inl (_, is_r) ↦ rw is_r sane
      | inr (_, old) ↦ fleet.sane j q old
    ];
  }

  -- A robot that keeps its name and its cell may change in all else.
  pub update-IsFleet :
      (i : ℕ) (old r : Robot)
      → lookup i robots ≡ some old
      → r.robot_id ≡ old.robot_id
      → r.position ≡ old.position
      → IsSane r
      → IsFleet w (insert i r robots)
  update-IsFleet i old r known name cell sane =
      insert-IsFleet i r (name ∙ fleet.named i old known) sane (rw cell (fleet.free i old known))
        (λ j q other l here. other (fleet.alone j i q old l known (here ∙ cell)))

  lookup_left :
      (i j : ℕ) (q : Robot) → lookup j (erase i robots) ≡ some q → lookup j robots ≡ some q
  lookup_left i j q l = elim (Eq-cases j i) [
    | inl (same, _) ↦ absurd (ground (arith, lookup-erase_self i robots fleet.ids))
    | inr (other, _) ↦ sym (lookup-erase_ne i j robots other) ∙ l
  ]

  pub erase-IsFleet : (i : ℕ) → IsFleet w (erase i robots)
  erase-IsFleet i = record {
    ids = erase-IsDict i robots fleet.ids;
    named = λ j q l. fleet.named j q (lookup_left i j q l);
    alone = λ j k q s l m. fleet.alone j k q s (lookup_left i j q l) (lookup_left i k s m);
    free = λ j q l. fleet.free j q (lookup_left i j q l);
    sane = λ j q l. fleet.sane j q (lookup_left i j q l);
  }

  -- The floor may change where no robot stands.
  pub floor-IsFleet :
      (v : Warehouse)
      → ((i : ℕ) (r : Robot)
          → lookup i robots ≡ some r
          → Warehouse.is_traversable v r.position ≡ true)
      → IsFleet v robots
  floor-IsFleet v free = record {
    ids = fleet.ids;
    named = fleet.named;
    alone = fleet.alone;
    free = free;
    sane = fleet.sane;
  }

pub empty-IsFleet : (w : Warehouse) → IsFleet w []
empty-IsFleet w = record {
  ids = tt;
  named = λ i r l. absurd (ground arith);
  alone = λ i j r q l m here. absurd (ground arith);
  free = λ i r l. absurd (ground arith);
  sane = λ i r l. absurd (ground arith);
}
