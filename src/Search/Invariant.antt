-- ===== src/Search/Invariant.antt =====
-- What the loop relies on, and what holds between its rounds.
use multi_robot_fulfillment.Common.{
  ℕ, zero, suc, ◌+◌, ◌≤◌, ◌≡◌, ◌⊎◌, Bool, true, false, some, List, Eq, ◌∈◌, contains, ok,
}
use multi_robot_fulfillment.Common.Dict.{Dict, lookup}
use multi_robot_fulfillment.Search.{Entry, Search, Query}

-- The graph behind a query: `steps` are the edges, each of cost one, and `valid` holds of the
-- states that the search meets, at the costs at which it meets them.
pub record Graph {S : Type 0} ⦃e : Eq S⦄ (query : Query S) (start : S) : Type 0 where
  pub steps : S → List S
  pub valid : S → ℕ → Bool
  pub start_valid : valid start 0 ≡ true
  pub step_valid : (s t : S) (g : ℕ) → valid s g ≡ true → t ∈ steps s → valid t (suc g) ≡ true
  pub successors_lem : (s : S) (g : ℕ) → valid s g ≡ true → query.successors s ≡ ok (steps s)
  pub next_cost_lem :
      (best : Dict S ℕ) (s : S) (g : ℕ)
      → lookup s best ≡ some g
      → valid s g ≡ true
      → query.next_cost best s ≡ ok (suc g)
  pub final :
      (query.skips_finalized ≡ true)
      ⊎ ((s : S) (g g' : ℕ) → valid s g ≡ true → valid s g' ≡ true → g ≡ g')

-- A walk of so many steps.
pub data Walk {S : Type 0} (steps : S → List S) (start : S) : ℕ → S → Type 0 where
  here : Walk steps start zero start
  step : {n : ℕ} {s t : S} → Walk steps start n s → t ∈ steps s → Walk steps start (suc n) t

module _ {S : Type 0} ⦃e : Eq S⦄ (query : Query S) (start : S) (graph : Graph query start) where
  open graph use {steps, valid}

  -- `s` was reached at cost `g` from a finalised state that is one step cheaper.
  pub record Link (st : Search S) (s : S) (g : ℕ) : Type 0 where
    pub previous : S
    pub cost : ℕ
    pub recorded : lookup s st.came_from ≡ some previous
    pub closed : contains st.finalized previous ≡ true
    pub known : lookup previous st.best_cost ≡ some cost
    pub one_more : suc cost ≡ g
    pub edge : s ∈ steps previous

  -- Costs, predecessors and queue agree.
  pub record Costs (st : Search S) : Type 0 where
    pub start_cost : lookup start st.best_cost ≡ some 0
    pub is_valid : (s : S) (g : ℕ) → lookup s st.best_cost ≡ some g → valid s g ≡ true
    pub linked : (s : S) (g : ℕ) → lookup s st.best_cost ≡ some g → (s ≡ start) ⊎ Link st s g
    pub finalized_known :
        (s : S) → contains st.finalized s ≡ true → (g : ℕ) × (lookup s st.best_cost ≡ some g)
    pub queued_known :
        (x : Entry S) → x ∈ st.frontier → (g : ℕ) × (lookup x.node st.best_cost ≡ some g)

  -- An entry of the queue that holds `s` at its cost.
  abbrev pub Waits : Search S → S → ℕ → Type 0
  Waits st s g = (x : Entry S) × (x ∈ st.frontier) × (x.node ≡ s) × (x.rank ≡ (query.order g s).0)

  abbrev pub Settled : Search S → S → Type 0
  Settled st s =
      (g : ℕ) (t : S)
      → lookup s st.best_cost ≡ some g
      → t ∈ steps s
      → (g' : ℕ) × (lookup t st.best_cost ≡ some g') × (g' ≤ suc g)

-- The rank is the cost plus an estimate that one step lowers by at most one and that is zero at a
-- goal.
pub record Consistent {S : Type 0} ⦃e : Eq S⦄ (query : Query S) (start : S)
    (graph : Graph query start) : Type 0 where
  pub estimate : S → ℕ
  pub rank_lem : (g : ℕ) (s : S) → (query.order g s).0 ≡ g + estimate s
  pub estimate_step :
      (s t : S) (g : ℕ) → graph.valid s g ≡ true → t ∈ graph.steps s → estimate s ≤ suc (estimate t)
  pub estimate_goal : (s : S) → query.is_goal s ≡ true → estimate s ≡ 0

module _ {S : Type 0} ⦃e : Eq S⦄ (query : Query S) (start : S) (graph : Graph query start)
    (consistent : Consistent query start graph) where
  open consistent use {estimate}

  -- Nothing that was met is forgotten: it is finalised or waits in the queue. But for the states
  -- of `busy`, every finalised state has passed its cost on to its successors. No entry of the queue
  -- has a rank below that of its own state or of a finalised one.
  pub record Complete (busy : S → Type 0) (st : Search S) : Type 0 where
    pub waiting :
        (s : S) (g : ℕ)
        → lookup s st.best_cost ≡ some g
        → (contains st.finalized s ≡ true) ⊎ Waits query start graph st s g
    pub settled : (s : S) → contains st.finalized s ≡ true → busy s ⊎ Settled query start graph st s
    pub no_goal : (s : S) → contains st.finalized s ≡ true → query.is_goal s ≡ false
    pub ranked :
        (x : Entry S) (g : ℕ)
        → x ∈ st.frontier
        → lookup x.node st.best_cost ≡ some g
        → g + estimate x.node ≤ x.rank
    pub ordered :
        (s : S) (x : Entry S) (g : ℕ)
        → contains st.finalized s ≡ true
        → x ∈ st.frontier
        → lookup s st.best_cost ≡ some g
        → g + estimate s ≤ x.rank
