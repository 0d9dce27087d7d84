-- ===== src/Search/Expand.antt =====
-- The expansion of a state: the loop over its neighbours keeps the costs, and after it each neighbour
-- has a cost of at most one more.
use multi_robot_fulfillment.Common.{
  ℕ, suc, ◌+◌, ◌≤◌, ◌≡◌, refl, inl, inr, true, some, List, [], ◌∷◌, Eq, ◌∈◌, contains, arith, ◌∙◌,
  Option-cases,
}
use multi_robot_fulfillment.Common.Dict.{lookup, lookup-insert}
use multi_robot_fulfillment.Search.{Search, Query, relax, relax_all}
use multi_robot_fulfillment.Search.Invariant.{Graph, Costs, Complete, Consistent}
use multi_robot_fulfillment.Search.Relax.{
  relax_cases, improved-Costs, improved-Complete, kept, grows,
}

module _ {S : Type 0} ⦃e : Eq S⦄ (query : Query S) (start : S) (graph : Graph query start)
    (current : S) (g : ℕ) where
  -- `current` was finalised at cost `g`.
  pub record Ready (s : Search S) : Type 0 where
    pub costs : Costs query start graph s
    pub closed : contains s.finalized current ≡ true
    pub at_g : lookup current s.best_cost ≡ some g

  -- No state loses its cost or gets a higher one, and the finalised states stay the same.
  pub record Lowers (s s' : Search S) : Type 0 where
    pub same : s'.finalized ≡ s.finalized
    pub lower :
        (t : S) (h : ℕ)
        → lookup t s.best_cost ≡ some h
        → (h' : ℕ) × (lookup t s'.best_cost ≡ some h') × (h' ≤ h)
    pub fixed :
        (t : S) → contains s.finalized t ≡ true → lookup t s'.best_cost ≡ lookup t s.best_cost

  Lowers-refl : (s : Search S) → Lowers s s
  Lowers-refl s = record { same = refl; lower = λ t h k. (h, k, omega arith); fixed = λ t k. refl }

  Lowers-trans : (s s' s'' : Search S) → Lowers s s' → Lowers s' s'' → Lowers s s''
  Lowers-trans s s' s'' a b = record {
    same = b.same ∙ a.same;
    lower = λ t h k.
        let (h₁, k₁, le₁) = a.lower t h k in
        let (h₂, k₂, le₂) = b.lower t h₁ k₁ in (h₂, k₂, omega arith);
    fixed = λ t k. b.fixed t (rw a.same k) ∙ a.fixed t k;
  }

  module _ (s : Search S) (n : S) (edge : n ∈ graph.steps current) (ready : Ready s) where
    relax-Lowers : Lowers s (relax query current (suc g) s n)
    relax-Lowers = elim (relax_cases query current (suc g) s n) [
      | inl (same, _) ↦ rw same (Lowers-refl s)
      | inr (new, passed, better) ↦ rw new (record {
        same = refl;
        lower = grows query start graph current g s n costs closed at_g edge better passed;
        fixed = kept query start graph current g s n costs closed at_g edge better passed;
      })
    ]
      where
        open ready use {costs, closed, at_g}

    relax-Ready : Ready (relax query current (suc g) s n)
    relax-Ready = elim (relax_cases query current (suc g) s n) [
      | inl (same, _) ↦ rw same ready
      | inr (new, passed, better) ↦ rw new (record {
        costs = improved-Costs query start graph current g s n costs closed at_g edge better passed;
        closed = closed;
        at_g =
            kept query start graph current g s n costs closed at_g edge better passed current closed
            ∙ at_g;
      })
    ]
      where
        open ready use {costs, closed, at_g}

  pub relax_all-Ready :
      (ns : List S) (s : Search S)
      → ((n : S) → n ∈ ns → n ∈ graph.steps current)
      → Ready s
      → Ready (relax_all query current (suc g) s ns)
        × Lowers s (relax_all query current (suc g) s ns)
  unfolding relax_all
  relax_all-Ready [] s edges r = (r, Lowers-refl s)
  relax_all-Ready (n ∷ ns) s edges r =
      let s' = relax query current (suc g) s n in
      let r' = relax-Ready s n (edges n (inl refl)) r in
      let (r'', lowers) = relax_all-Ready ns s' (λ m i. edges m (inr i)) r' in
      (r'', Lowers-trans s s' _ (relax-Lowers s n (edges n (inl refl)) r) lowers)

  module _ (consistent : Consistent query start graph) where
    open consistent use {estimate}

    pub record Front (s : Search S) : Type 0 where
      pub ready : Ready s
      pub complete : Complete query start graph consistent (λ t. t ≡ current) s
      pub top :
          (t : S) (h : ℕ)
          → contains s.finalized t ≡ true
          → lookup t s.best_cost ≡ some h
          → h + estimate t ≤ g + estimate current

    relax-Front :
        (s : Search S) (n : S)
        → n ∈ graph.steps current
        → Front s
        → Front (relax query current (suc g) s n)
    relax-Front s n edge f = record {
      ready = relax-Ready s n edge f.ready;
      complete = elim (relax_cases query current (suc g) s n) [
        | inl (same, _) ↦ rw same f.complete
        | inr (new, passed, better) ↦ rw new (
            improved-Complete query start graph current g s n f.ready.costs f.ready.closed
              f.ready.at_g edge better passed consistent f.top f.complete)
      ];
      top = λ t h k l.
          let lowers = relax-Lowers s n edge f.ready in
          let k' : contains s.finalized t ≡ true = rw (← lowers.same) k in
          f.top t h k' (ground (arith, lowers.fixed t k'));
    }

    -- After its turn a neighbour has a cost of at most one more.
    relax_bound :
        (s : Search S) (n : S)
        → n ∈ graph.steps current
        → Front s
        → (h : ℕ) × (lookup n (relax query current (suc g) s n).best_cost ≡ some h) × (h ≤ suc g)
    relax_bound s n edge f = elim (relax_cases query current (suc g) s n) [
      | inl (same, inl skipped) ↦
          let done : contains s.finalized n ≡ true = ground arith in
          let (h, known) = f.ready.costs.finalized_known n done in
          let le = f.top n h done known in
          let valid = f.ready.costs.is_valid current g f.ready.at_g in
          (h, rw same known, omega (arith, consistent.estimate_step current n g valid edge))
      | inl (same, inr no_better) ↦ elim (Option-cases (lookup n s.best_cost)) [
        | inl unknown ↦ absurd (ground arith)
        | inr (h, known) ↦ (h, rw same known, ground arith)
      ]
      | inr (new, _, _) ↦ (
        suc g,
        rw new (ground (arith, lookup-insert n n (suc g) s.best_cost, (e.beq_iff n n).1)),
        omega arith,
      )
    ]

    pub relax_all-Front :
        (ns : List S) (s : Search S)
        → ((n : S) → n ∈ ns → n ∈ graph.steps current)
        → Front s
        → Front (relax_all query current (suc g) s ns)
          × ((n : S)
              → n ∈ ns
              → (h : ℕ) × (lookup n (relax_all query current (suc g) s ns).best_cost ≡ some h)
                × (h ≤ suc g))
    unfolding relax_all
    relax_all-Front [] s edges f = (f, λ n m. absurd m)
    relax_all-Front (n ∷ ns) s edges f =
        let s' = relax query current (suc g) s n in
        let f' = relax-Front s n (edges n (inl refl)) f in
        let (f'', bounds) = relax_all-Front ns s' (λ m i. edges m (inr i)) f' in
        let lowers = (relax_all-Ready ns s' (λ m i. edges m (inr i)) f'.ready).1 in
        (
          f'',
          λ m. elim [
            | inl same ↦
                let (h, k, le) = relax_bound s n (edges n (inl refl)) f in
                let (h', k', le') = lowers.lower n h k in rw same (h', k', omega arith)
            | inr i ↦ bounds m i
          ],
        )
