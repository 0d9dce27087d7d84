-- ===== src/Warehouse/Obstacles.antt =====
-- The obstacle registries: what a search by cell finds after an obstacle is entered or removed.
use multi_robot_fulfillment.Common.{
  ℕ, ◌≡◌, ◌≢◌, ◌⊎◌, ◌↔◌, true, none, some, [], ◌∷◌, arith, nat_eq, refl,
}
use multi_robot_fulfillment.Common.Dict.{Dict, lookup, insert, erase}
use multi_robot_fulfillment.Geometry.{Position, position_eq, position_beq_iff}
use multi_robot_fulfillment.Warehouse.{Obstacle, any_at}

pub any_at-insert_new :
    (p : Position) (i : ℕ) (o : Obstacle) (d : Dict ℕ Obstacle)
    → lookup i d ≡ none
    → (any_at p (insert i o d) ≡ true) ↔ ((any_at p d ≡ true) ⊎ (o.position ≡ p))
any_at-insert_new p i o [] h = ground (arith, position_beq_iff o.position p)
any_at-insert_new p i o ((j, w) ∷ d) h = ground (arith, any_at-insert_new p i o d)

-- A removed obstacle frees no cell but its own.
pub any_at-erase :
    (p : Position) (i : ℕ) (o : Obstacle) (d : Dict ℕ Obstacle)
    → lookup i d ≡ some o
    → o.position ≢ p
    → any_at p (erase i d) ≡ any_at p d
any_at-erase p i o [] h ne = refl
any_at-erase p i o ((j, w) ∷ d) h ne =
    ground (arith, position_beq_iff o.position p, any_at-erase p i o d)

pub any_at-erase_le :
    (p : Position) (i : ℕ) (d : Dict ℕ Obstacle) → any_at p (erase i d) ≡ true → any_at p d ≡ true
any_at-erase_le p i [] h = h
any_at-erase_le p i ((j, w) ∷ d) h = ground (arith, any_at-erase_le p i d)

pub any_at_of_lookup :
    (i : ℕ) (o : Obstacle) (d : Dict ℕ Obstacle) → lookup i d ≡ some o → any_at o.position d ≡ true
any_at_of_lookup i o [] h = ground arith
any_at_of_lookup i o ((j, w) ∷ d) h =
    ground (arith, position_beq_iff o.position o.position, any_at_of_lookup i o d)
