-- ===== src/Common/Lists.antt =====
-- Lists measured by native numbers, membership, Boolean searches and Python's `sorted`.
use Prim.Native.Nat.{ℕ, suc, ◌+◌}
use mathlib.Core.Path.{◌≡◌, refl, ap}
use mathlib.Core.Logic.{◌⊎◌, ◌↔◌, inl, inr}
use mathlib.Core.Bool.{Bool, true, false, ◌&&◌, ◌||◌}
use mathlib.Core.List.{List, [], ◌∷◌, ◌++◌, map}
use mathlib.Core.Option.{Option, none, some}
use native.Mathlib.Omega.{arith}
use multi_robot_fulfillment.Common.Tests.{Eq, ◌==◌, if◌then◌else◌, Bool-cases}

module _ {ℓ} {A : Type ℓ} where
  abbrev pub length : List A → ℕ
  length [] = 0
  length (x ∷ xs) = suc (length xs)

  pub length-append : (xs ys : List A) → length (xs ++ ys) ≡ length xs + length ys
  length-append [] ys = omega arith
  length-append (x ∷ xs) ys = omega (arith, length-append xs ys)

  -- `any(p(x) for x in xs)`
  abbrev pub any : (A → Bool) → List A → Bool
  any p [] = false
  any p (x ∷ xs) = p x || any p xs

  -- `[x for x in xs if p(x)]`
  abbrev pub keep_if : (A → Bool) → List A → List A
  keep_if p [] = []
  keep_if p (x ∷ xs) = if p x then x ∷ keep_if p xs else keep_if p xs

  -- The last element, `xs[-1]`.
  abbrev pub last? : List A → Option A
  last? [] = none
  last? (x ∷ []) = some x
  last? (x ∷ y ∷ ys) = last? (y ∷ ys)

  abbrev pub first? : List A → Option A
  first? [] = none
  first? (x ∷ xs) = some x

  -- `sorted(xs, key=...)`, stable, where `before y x` says that the key of `y` is smaller than
  -- the key of `x`.
  unfoldable pub insert_sorted : (A → A → Bool) → A → List A → List A
  insert_sorted before x [] = x ∷ []
  insert_sorted before x (y ∷ ys) = if before y x then y ∷ insert_sorted before x ys else x ∷ y ∷ ys

  unfoldable pub sorted : (A → A → Bool) → List A → List A
  unfolding insert_sorted
  sorted before [] = []
  sorted before (x ∷ xs) = insert_sorted before x (sorted before xs)

module _ {A : Type 0} where
  -- Membership by recursion, with the place where the value stands kept.
  infix 40 ◌∈◌
  abbrev pub ◌∈◌ : A → List A → Type 0
  a ∈ [] = ⊥
  a ∈ (x ∷ xs) = (a ≡ x) ⊎ (a ∈ xs)

  -- Membership by the program's own test.
  abbrev pub contains : ⦃e : Eq A⦄ → List A → A → Bool
  contains [] a = false
  contains (x ∷ xs) a = a == x || contains xs a

  pub contains→mem : ⦃e : Eq A⦄ (xs : List A) (a : A) → contains xs a ≡ true → a ∈ xs
  contains→mem [] a h = ground arith
  contains→mem ⦃e⦄ (x ∷ xs) a h = ground (arith, (e.beq_iff a x).0, contains→mem xs a)

  pub mem→contains : ⦃e : Eq A⦄ (xs : List A) (a : A) → a ∈ xs → contains xs a ≡ true
  mem→contains [] a h = absurd h
  mem→contains ⦃e⦄ (x ∷ xs) a h = ground (arith, (e.beq_iff a x).1, mem→contains xs a)

  pub any-intro : (p : A → Bool) (xs : List A) (a : A) → a ∈ xs → p a ≡ true → any p xs ≡ true
  any-intro p [] a m h = absurd m
  any-intro p (x ∷ xs) a m h = ground (arith, any-intro p xs a)

  pub any-elim : (p : A → Bool) (xs : List A) → any p xs ≡ true → (a : A) × (a ∈ xs) × (p a ≡ true)
  any-elim p [] h = absurd (ground arith)
  any-elim p (x ∷ xs) h = elim (Bool-cases (p x)) [
    | inl yes_x ↦ (x, inl refl, yes_x)
    | inr no_x ↦ let (a, m, pa) = any-elim p xs (ground arith) in (a, inr m, pa)
  ]

  pub mem-keep_if :
      (p : A → Bool) (xs : List A) (a : A) → (a ∈ keep_if p xs) ↔ ((a ∈ xs) × (p a ≡ true))
  mem-keep_if p [] a = (λ m. absurd m, λ m. absurd m.0)
  mem-keep_if p (x ∷ xs) a = ground (arith, mem-keep_if p xs a)

  pub mem-append : (xs ys : List A) (a : A) → (a ∈ xs ++ ys) ↔ ((a ∈ xs) ⊎ (a ∈ ys))
  mem-append [] ys a = ground arith
  mem-append (x ∷ xs) ys a = ground (arith, mem-append xs ys a)

pub mem-map : {A B : Type 0} (f : A → B) (xs : List A) (a : A) → a ∈ xs → f a ∈ map f xs
mem-map f [] a m = absurd m
mem-map f (x ∷ xs) a (inl same) = inl (ap f same)
mem-map f (x ∷ xs) a (inr m) = inr (mem-map f xs a m)

pub List-cases {ℓ} :
    {A : Type ℓ} (xs : List A) → (xs ≡ []) ⊎ ((x : A) × (rest : List A) × (xs ≡ x ∷ rest))
List-cases [] = inl refl
List-cases (x ∷ xs) = inr (x, xs, refl)

-- `set(xs)`
abbrev pub to_set : {A : Type 0} ⦃e : Eq A⦄ → List A → List A
to_set [] = []
to_set (x ∷ xs) = if contains (to_set xs) x then to_set xs else x ∷ to_set xs

module _ {A : Type 0} (before : A → A → Bool) where
  mem-insert_sorted :
      (x a : A) (xs : List A) → (a ∈ insert_sorted before x xs) ↔ ((a ≡ x) ⊎ (a ∈ xs))
  unfolding insert_sorted
  mem-insert_sorted x a [] = ground arith
  mem-insert_sorted x a (y ∷ ys) = elim (Bool-cases (before y x)) [
    | inl h ↦ ground (arith, h, mem-insert_sorted x a ys)
    | inr h ↦ ground (arith, h)
  ]

  pub mem-sorted : (a : A) (xs : List A) → (a ∈ sorted before xs) ↔ (a ∈ xs)
  unfolding sorted
  mem-sorted a [] = ground arith
  mem-sorted a (x ∷ xs) = ground (arith, mem-insert_sorted x a (sorted before xs), mem-sorted a xs)

-- `xs == ys`
abbrev pub list_beq : {A : Type 0} ⦃e : Eq A⦄ → List A → List A → Bool
list_beq [] [] = true
list_beq (x ∷ xs) (y ∷ ys) = x == y && list_beq xs ys
list_beq _ _ = false

pub list_beq→eq : {A : Type 0} ⦃e : Eq A⦄ (xs ys : List A) → list_beq xs ys ≡ true → xs ≡ ys
list_beq→eq [] [] h = refl
list_beq→eq ⦃e⦄ (x ∷ xs) (y ∷ ys) h = ground (arith, e.beq_iff x y, list_beq→eq xs ys)
list_beq→eq [] (y ∷ ys) h = ground arith
list_beq→eq (x ∷ xs) [] h = ground arith
