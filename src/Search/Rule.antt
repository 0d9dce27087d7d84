-- ===== src/Search/Rule.antt =====
-- The rule for the loop: an invariant that each kind of round keeps, and what it gives at the end.
use multi_robot_fulfillment.Common.{
  ℕ, zero, suc, ◌≡◌, inl, inr, true, false, List, [], ◌∷◌, Eq, contains, arith, ok, Bool-cases,
  List-cases, sym, ◌∙◌, subst,
}
use multi_robot_fulfillment.Search.{
  Entry, Search, Query, Ending, reached, exhausted, heappop, expand, finalize, loop,
}

module _ {S : Type 0} ⦃e : Eq S⦄ (query : Query S) where
  -- What a round does to the invariant `P`, and what `Q` says of the end.
  pub record Keeps (P : Search S → Type 0) (Q : Ending S → Type 0) : Type 0 where
    pub stale :
        (s : Search S) (x : Entry S) (xs : List (Entry S))
        → P s
        → s.frontier ≡ x ∷ xs
        → contains s.finalized (heappop x xs).0.node ≡ true
        → P (record s { frontier = (heappop x xs).1 })
    pub goal :
        (s : Search S) (x : Entry S) (xs : List (Entry S))
        → P s
        → s.frontier ≡ x ∷ xs
        → contains s.finalized (heappop x xs).0.node ≡ false
        → query.is_goal (heappop x xs).0.node ≡ true
        → Q (reached (heappop x xs).0.node (finalize (heappop x xs).0.node (heappop x xs).1 s))
    pub expanded :
        (s s' : Search S) (x : Entry S) (xs : List (Entry S))
        → P s
        → s.frontier ≡ x ∷ xs
        → contains s.finalized (heappop x xs).0.node ≡ false
        → query.is_goal (heappop x xs).0.node ≡ false
        → expand query (heappop x xs).0.node (finalize (heappop x xs).0.node (heappop x xs).1 s)
          ≡ ok s'
        → P s'
    pub empty : (s : Search S) → P s → s.frontier ≡ [] → Q (exhausted s)

  module _ (fuel : ℕ) (s : Search S) (x : Entry S) (xs : List (Entry S))
      (is_front : s.frontier ≡ x ∷ xs) where
    abbrev current : S
    current = (heappop x xs).0.node

    abbrev closed : Search S
    closed = finalize current (heappop x xs).1 s

    pub loop_stale :
        contains s.finalized current ≡ true
        → loop query (suc fuel) s ≡ loop query fuel (record s { frontier = (heappop x xs).1 })
    unfolding loop
    loop_stale done = ground arith

    pub loop_goal :
        contains s.finalized current ≡ false
        → query.is_goal current ≡ true
        → loop query (suc fuel) s ≡ ok (reached current closed)
    unfolding loop
    loop_goal new goal = ground arith

    pub loop_expanded :
        (s' : Search S)
        → contains s.finalized current ≡ false
        → query.is_goal current ≡ false
        → expand query current closed ≡ ok s'
        → loop query (suc fuel) s ≡ loop query fuel s'
    unfolding loop
    loop_expanded s' new other expands = ground arith

    pub loop_raises :
        {ending : Ending S}
        → contains s.finalized current ≡ false
        → query.is_goal current ≡ false
        → loop query (suc fuel) s ≡ ok ending
        → (s' : Search S) × (expand query current closed ≡ ok s')
    unfolding loop
    loop_raises new other h = ground arith

  pub loop_empty :
      (fuel : ℕ) (s : Search S) → s.frontier ≡ [] → loop query fuel s ≡ ok (exhausted s)
  unfolding loop
  loop_empty zero s none_left = ground arith
  loop_empty (suc fuel) s none_left = ground arith

  loop_fuel : (s : Search S) {ending : Ending S} → loop query zero s ≡ ok ending → s.frontier ≡ []
  unfolding loop
  loop_fuel s h = ground arith

  pub loop_rule :
      (P : Search S → Type 0) (Q : Ending S → Type 0)
      → Keeps P Q
      → (fuel : ℕ) (s : Search S) (ending : Ending S) → P s
      → loop query fuel s ≡ ok ending
      → Q ending
  loop_rule P Q k zero s ending p h =
      let none_left = loop_fuel s h in
      let same : exhausted s ≡ ending = cc (loop_empty zero s none_left) in
      subst Q same (k.empty s p none_left)
  loop_rule P Q k (suc fuel) s ending p h = elim (List-cases s.frontier) [
    | inl none_left ↦
        let same : exhausted s ≡ ending = cc (loop_empty (suc fuel) s none_left) in
        subst Q same (k.empty s p none_left)
    | inr (x, xs, is_front) ↦ elim (Bool-cases (contains s.finalized (heappop x xs).0.node)) [
      | inl done ↦
          loop_rule P Q k fuel (record s { frontier = (heappop x xs).1 }) ending
            (k.stale s x xs p is_front done) (sym (loop_stale fuel s x xs is_front done) ∙ h)
      | inr new ↦ elim (Bool-cases (query.is_goal (heappop x xs).0.node)) [
        | inl goal ↦
            let same : reached (heappop x xs).0.node (closed fuel s x xs is_front) ≡ ending =
              cc (loop_goal fuel s x xs is_front new goal) in
            subst Q same (k.goal s x xs p is_front new goal)
        | inr other ↦
            let (s', expands) = loop_raises fuel s x xs is_front new other h in
            loop_rule P Q k fuel s' ending (k.expanded s s' x xs p is_front new other expands)
              (sym (loop_expanded fuel s x xs is_front s' new other expands) ∙ h)
      ]
    ]
  ]
