-- ===== src/Search/Route.antt =====
-- The reconstruction of a route from the predecessors.
use multi_robot_fulfillment.Common.{
  ℕ, zero, suc, ◌+◌, ◌≤◌, ◌≡◌, refl, inl, inr, true, false, some, List, [], ◌∷◌, Eq, ◌==◌, ◌∈◌,
  arith, ok, length, first?, last?, ap, ◌∙◌, Eq-cases, subst,
}
use multi_robot_fulfillment.Common.Dict.{lookup}
use multi_robot_fulfillment.Search.{Search, Query, walk_back, reconstruct_path}
use multi_robot_fulfillment.Search.Invariant.{Graph, Costs}

-- Each state of the list is a step from the one before it.
abbrev pub Chain : {S : Type 0} → (S → List S) → List S → Type 0
Chain steps [] = Unit
Chain steps (x ∷ []) = Unit
Chain steps (x ∷ y ∷ ys) = (y ∈ steps x) × Chain steps (y ∷ ys)

-- No state stands twice.
abbrev pub Distinct : {S : Type 0} → List S → Type 0
Distinct [] = Unit
Distinct (x ∷ xs) = (¬ (x ∈ xs)) × Distinct xs

-- A route from `start` to `goal` of so many steps that visits no state twice.
pub record IsRoute {S : Type 0} (steps : S → List S) (start goal : S) (cost : ℕ) (path : List S)
    : Type 0 where
  pub first : first? path ≡ some start
  pub last : last? path ≡ some goal
  pub chain : Chain steps path
  pub moves : length path ≡ suc cost
  pub distinct : Distinct path

module _ {S : Type 0} ⦃e : Eq S⦄ (query : Query S) (start : S) (graph : Graph query start)
    (st : Search S) (c : Costs query start graph st) where
  open graph use {steps}

  -- The costs along the list go up by one, from `g` on.
  abbrev Costed : ℕ → List S → Type 0
  Costed g [] = Unit
  Costed g (x ∷ xs) = (lookup x st.best_cost ≡ some g) × Costed (suc g) xs

  later_costs :
      (g : ℕ) (x : S) (xs : List S)
      → Costed g xs
      → x ∈ xs
      → (h : ℕ) × (lookup x st.best_cost ≡ some h) × (g ≤ h)
  later_costs g x [] k m = absurd m
  later_costs g x (y ∷ ys) k (inl same) = (g, rw same k.0, omega arith)
  later_costs g x (y ∷ ys) k (inr m) =
      let (h, l, le) = later_costs (suc g) x ys k.1 m in (h, l, omega arith)

  Costed-Distinct : (g : ℕ) (xs : List S) → Costed g xs → Distinct xs
  Costed-Distinct g [] k = tt
  Costed-Distinct g (x ∷ xs) k = (
    λ m. let (h, l, le) = later_costs (suc g) x xs k.1 m in ground (arith, k.0),
    Costed-Distinct (suc g) xs k.1,
  )

  pub record Walked (goal : S) (g : ℕ) (rest path : List S) : Type 0 where
    pub first : first? path ≡ some start
    pub last : last? path ≡ some goal
    pub chain : Chain steps path
    pub costed : Costed 0 path
    pub moves : length path ≡ suc g + length rest

  walk_back_start :
      (fuel : ℕ) (current : S) (path : List S)
      → (current == start) ≡ true
      → walk_back fuel st.came_from start current path ≡ ok path
  unfolding walk_back
  walk_back_start zero current path h = ground arith
  walk_back_start (suc fuel) current path h = ground arith

  walk_back_step :
      (fuel : ℕ) (current previous : S) (path : List S)
      → (current == start) ≡ false
      → lookup current st.came_from ≡ some previous
      → walk_back (suc fuel) st.came_from start current path
        ≡ walk_back fuel st.came_from start previous (previous ∷ path)
  unfolding walk_back
  walk_back_step fuel current previous path h l = ground arith

  at_start :
      (fuel g : ℕ) (goal current : S) (rest : List S)
      → current ≡ start
      → (current == start) ≡ true
      → lookup current st.best_cost ≡ some g
      → last? (current ∷ rest) ≡ some goal
      → Chain steps (current ∷ rest)
      → Costed (suc g) rest
      → (path : List S) × (walk_back fuel st.came_from start current (current ∷ rest) ≡ ok path)
        × Walked goal g rest path
  at_start fuel g goal current rest same test k l ch co =
      let none_yet : g ≡ 0 = ground (arith, c.start_cost) in
      (
        current ∷ rest,
        walk_back_start fuel current (current ∷ rest) test,
        record {
          first = ap some same;
          last = l;
          chain = ch;
          costed = subst (λ h. Costed h (current ∷ rest)) none_yet (k, co);
          moves = omega arith;
        },
      )

  -- With as much fuel as the cost the walk back ends at the start.
  walk_back_ends :
      (fuel g : ℕ) (goal current : S) (rest : List S)
      → g ≤ fuel
      → lookup current st.best_cost ≡ some g
      → last? (current ∷ rest) ≡ some goal
      → Chain steps (current ∷ rest)
      → Costed (suc g) rest
      → (path : List S) × (walk_back fuel st.came_from start current (current ∷ rest) ≡ ok path)
        × Walked goal g rest path
  walk_back_ends zero g goal current rest enough k l ch co = elim (Eq-cases current start) [
    | inl (same, test) ↦ at_start zero g goal current rest same test k l ch co
    | inr (ne, _) ↦ elim (c.linked current g k) [
      | inl same ↦ absurd (ne same)
      | inr link ↦ absurd (omega (arith, link.one_more))
    ]
  ]
  walk_back_ends (suc fuel) g goal current rest enough k l ch co = elim (Eq-cases current start) [
    | inl (same, test) ↦ at_start (suc fuel) g goal current rest same test k l ch co
    | inr (ne, test) ↦ elim (c.linked current g k) [
      | inl same ↦ absurd (ne same)
      | inr link ↦
          let previous = link.previous in
          let longer : Costed (suc link.cost) (current ∷ rest) = rw link.one_more (k, co) in
          let (path, returns, walked) =
            walk_back_ends fuel link.cost goal previous (current ∷ rest)
              (omega (arith, link.one_more)) link.known l (link.edge, ch) longer in
          (
            path,
            walk_back_step fuel current previous (current ∷ rest) test link.recorded ∙ returns,
            record {
              first = walked.first;
              last = walked.last;
              chain = walked.chain;
              costed = walked.costed;
              moves = omega (arith, walked.moves, link.one_more);
            },
          )
    ]
  ]

  -- The reconstruction from a state of known cost gives a route of that cost.
  pub reconstruct_path-IsRoute :
      (goal : S) (g : ℕ)
      → lookup goal st.best_cost ≡ some g
      → (path : List S) × (reconstruct_path g st.came_from start goal ≡ ok path)
        × IsRoute steps start goal g path
  unfolding reconstruct_path
  reconstruct_path-IsRoute goal g k =
      let (path, returns, walked) = walk_back_ends g g goal goal [] (omega arith) k refl tt tt in
      (
        path,
        returns,
        record {
          first = walked.first;
          last = walked.last;
          chain = walked.chain;
          moves = omega (arith, walked.moves);
          distinct = Costed-Distinct 0 path walked.costed;
        },
      )
