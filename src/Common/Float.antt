-- ===== src/Common/Float.antt =====
-- Python's floats, as whole multiples of the smallest positive one, 2 ^ -1074: every finite float is
-- such a multiple. A sum or a difference is the exact one, rounded to 53 binary digits, to nearest
-- with ties to even. Infinities, NaN and overflow are not modelled.
use Prim.Native.Nat.{ℕ, zero, suc, ◌+◌, ◌-◌, ◌*◌, ◌≤◌, ◌<◌, ◌/◌, ◌%◌}
use mathlib.Core.Path.{◌≡◌, refl, subst, ap, ◌∙◌}
use mathlib.Core.Logic.{◌⊎◌, inl, inr}
use mathlib.Core.Bool.{Bool, true, false, not, ◌||◌}
use native.Mathlib.Omega.{arith}
use multi_robot_fulfillment.Common.Tests.{ltb, nat_beq, if◌then◌else◌, Bool-cases}
use multi_robot_fulfillment.Common.Int.{
  ℤ, pos, negsuc, pos_part, ◌+ℤ◌, ◌-ℤ◌, ◌≤ℤ◌, +ℤ_parts, -ℤ_parts,
}

-- 2 ^ 53: smaller numbers have 53 digits at most.
abbrev pub full : ℕ
full = 9007199254740992

-- A number of 54 digits, rounded to an even one; `sticky` says that digits behind it were cut off.
unfoldable pub round_last : ℕ → Bool → ℕ
round_last n sticky =
    if nat_beq (n % 2) 0 then n else if sticky || nat_beq (n / 2 % 2) 1 then n + 1 else n - 1

-- Each step cuts one digit off. The fuel is more than the digits of any float
-- and of any quotient.
unfoldable pub round_digits : ℕ → ℕ → Bool → ℕ
round_digits zero n sticky = n
round_digits (suc fuel) n sticky = elim (ltb n (2 * full)) [
  | true ↦ if ltb n full then n else round_last n sticky
  | false ↦ 2 * round_digits fuel (n / 2) (sticky || nat_beq (n % 2) 1)
]

abbrev pub digit_limit : ℕ
digit_limit = 3200

abbrev pub negate : ℕ → ℤ
negate zero = pos 0
negate (suc n) = negsuc n

unfoldable pub round : ℤ → ℤ
round (pos n) = pos (round_digits digit_limit n false)
round (negsuc n) = negate (round_digits digit_limit (suc n) false)

infixl 65 ◌+f◌ ◌-f◌
unfoldable pub ◌+f◌ : ℤ → ℤ → ℤ
a +f b = round (a +ℤ b)

unfoldable pub ◌-f◌ : ℤ → ℤ → ℤ
a -f b = round (a -ℤ b)

-- `n * 2 ^ k`, by doubling.
unfoldable pub doubled : ℕ → ℕ → ℕ
doubled zero n = n
doubled (suc k) n = 2 * doubled k n

-- A number that is whole, as a float.
unfoldable pub whole : ℕ → ℤ
whole n = pos (doubled 1074 n)

-- A whole number of either sign, and the quotient of two floats that are not negative: the digits
-- behind the last unit count as cut off. A quotient of fewer than 54 units is not rounded.
unfoldable pub whole_ℤ : ℤ → ℤ
whole_ℤ (pos n) = whole n
whole_ℤ (negsuc n) = negate (doubled 1074 (suc n))

infixl 70 ◌/f◌
unfoldable pub ◌/f◌ : ℤ → ℤ → ℤ
a /f b =
    let dividend = doubled 1074 (pos_part a) in
    pos (round_digits digit_limit (dividend / pos_part b) (not (nat_beq (dividend % pos_part b) 0)))

last_full : (n : ℕ) (sticky : Bool) → full ≤ n → full ≤ round_last n sticky
unfolding round_last
last_full n sticky h = ground arith

last_below : (n : ℕ) (sticky : Bool) → n < 2 * full → round_last n sticky ≤ 2 * full
unfolding round_last
last_below n sticky h = ground arith

even_last : (n : ℕ) → round_last (2 * n) false ≡ 2 * n
unfolding round_last
even_last n = ground arith

last_mono_lt : (n m : ℕ) (s t : Bool) → n < m → round_last n s ≤ round_last m t
unfolding round_last
last_mono_lt n m s t h = ground arith

last_mono_eq : (n : ℕ) (s t : Bool) → (s ≡ true → t ≡ true) → round_last n s ≤ round_last n t
unfolding round_last
last_mono_eq n s t h = ground arith

module _ (fuel n : ℕ) (s : Bool) where
  small : ltb n full ≡ true → round_digits (suc fuel) n s ≡ n
  unfolding round_digits
  small h = ground (arith, h)

  middle :
      ltb n full ≡ false → ltb n (2 * full) ≡ true → round_digits (suc fuel) n s ≡ round_last n s
  unfolding round_digits
  middle h h' = ground (arith, h, h')

  large :
      ltb n (2 * full) ≡ false
      → round_digits (suc fuel) n s ≡ 2 * round_digits fuel (n / 2) (s || nat_beq (n % 2) 1)
  unfolding round_digits
  large h = ground (arith, h)

round-full : (fuel n : ℕ) (s : Bool) → full ≤ n → full ≤ round_digits fuel n s
unfolding round_digits
round-full zero n s h = h
round-full (suc fuel) n s h = elim (Bool-cases (ltb n (2 * full))) [
  | inl below ↦ ground (arith, middle fuel n s, last_full n s h)
  | inr above ↦
      ground (
        arith,
        large fuel n s above,
        round-full fuel (n / 2) (s || nat_beq (n % 2) 1) (ground arith),
      )
]

-- Two numbers with their cut digits, the first not above the second.
abbrev IsBelow : ℕ → Bool → ℕ → Bool → Type 0
IsBelow n s m t = (n < m) ⊎ ((n ≡ m) × (s ≡ true → t ≡ true))

halves-IsBelow :
    (n m : ℕ) (s t : Bool)
    → IsBelow n s m t
    → IsBelow (n / 2) (s || nat_beq (n % 2) 1) (m / 2) (t || nat_beq (m % 2) 1)
halves-IsBelow n m s t h = ground arith

round_digits_mono :
    (fuel n m : ℕ) (s t : Bool) → IsBelow n s m t → round_digits fuel n s ≤ round_digits fuel m t
unfolding round_digits
round_digits_mono zero n m s t h = ground (arith, h)
round_digits_mono (suc fuel) n m s t h = elim (Bool-cases (ltb m (2 * full))) [
  | inr above ↦ elim (Bool-cases (ltb n (2 * full))) [
    | inr above' ↦
        let halves =
          round_digits_mono fuel (n / 2) (m / 2) (s || nat_beq (n % 2) 1) (t || nat_beq (m % 2) 1)
            (halves-IsBelow n m s t h) in
        ground (arith, large fuel n s above', large fuel m t above, halves)
    | inl below ↦
        let high = round-full fuel (m / 2) (t || nat_beq (m % 2) 1) (ground arith) in
        elim (Bool-cases (ltb n full)) [
          | inl tiny ↦ ground (arith, small fuel n s tiny, large fuel m t above, high)
          | inr medium ↦ ground (
            arith,
            middle fuel n s medium below,
            large fuel m t above,
            high,
            last_below n s (ground arith),
          )
        ]
  ]
  | inl below ↦ elim (Bool-cases (ltb m full)) [
    | inl tiny ↦ ground (arith, small fuel m t tiny, small fuel n s)
    | inr medium ↦ elim (Bool-cases (ltb n full)) [
      | inl tiny ↦
          ground
            (arith, small fuel n s tiny, middle fuel m t medium below, last_full m t (ground arith))
      | inr medium' ↦ elim h [
        | inl less ↦ ground (
          arith,
          middle fuel n s medium' (ground arith),
          middle fuel m t medium below,
          last_mono_lt n m s t less,
        )
        | inr (same, keeps) ↦ ground (
          arith,
          middle fuel n s medium' (ground arith),
          middle fuel m t medium below,
          same,
          last_mono_eq n s t keeps,
        )
      ]
    ]
  ]
]

round-doubled : (fuel k n : ℕ) → n < full → round_digits fuel (doubled k n) false ≡ doubled k n
unfolding doubled round_digits
round-doubled zero k n h = refl
round-doubled (suc fuel) zero n h = ground (arith, small fuel n false, h)
round-doubled (suc fuel) (suc k) n h =
    let half = doubled k n in
    elim (Bool-cases (ltb (2 * half) (2 * full))) [
      | inr above ↦
          let even : nat_beq (2 * half % 2) 1 ≡ false = ground arith in
          let cut : 2 * half / 2 ≡ half = omega arith in
          large fuel (2 * half) false above
          ∙ ap (λ b. 2 * round_digits fuel (2 * half / 2) b) even
          ∙ ap (λ m. 2 * round_digits fuel m false) cut
          ∙ ap (λ m. 2 * m) (round-doubled fuel k n h)
      | inl below ↦ elim (Bool-cases (ltb (2 * half) full)) [
        | inl tiny ↦ ground (arith, small fuel (2 * half) false tiny)
        | inr medium ↦ ground (arith, middle fuel (2 * half) false medium below, even_last half)
      ]
    ]

-- A whole number below 2 ^ 53 is a float.
pub round-whole : (n : ℕ) → n < full → round (whole n) ≡ whole n
unfolding round whole
round-whole n h = ap pos (round-doubled digit_limit 1074 n h)

negate_mono : (n m : ℕ) → n ≤ m → negate m ≤ℤ negate n
negate_mono n m h = ground arith

negate_low : (n m : ℕ) → negate n ≤ℤ pos m
negate_low n m = ground arith

-- A larger number is not rounded to a smaller float.
pub round_mono : (a b : ℤ) → a ≤ℤ b → round a ≤ℤ round b
unfolding round
round_mono (pos n) (pos m) h =
    ground (arith, h, round_digits_mono digit_limit n m false false (ground (arith, h)))
round_mono (pos n) (negsuc m) h = absurd (ground (arith, h))
round_mono (negsuc n) (pos m) h =
    negate_low (round_digits digit_limit (suc n) false) (round_digits digit_limit m false)
round_mono (negsuc n) (negsuc m) h =
    negate_mono (round_digits digit_limit (suc m) false) (round_digits digit_limit (suc n) false)
      (round_digits_mono digit_limit (suc m) (suc n) false false (ground (arith, h)))

doubled-zero : (k : ℕ) → doubled k 0 ≡ 0
unfolding doubled
doubled-zero zero = refl
doubled-zero (suc k) = ground (arith, doubled-zero k)

pub round-zero : round (pos 0) ≡ pos 0
unfolding whole
round-zero = subst (λ n. round (pos n) ≡ pos n) (doubled-zero 1074) (round-whole 0 (omega arith))

pub whole_low : (n : ℕ) → pos 0 ≤ℤ whole n
unfolding whole
whole_low n = ground arith

module _ (a b : ℤ) where
  pub +f_low : pos 0 ≤ℤ a → pos 0 ≤ℤ b → pos 0 ≤ℤ a +f b
  unfolding ◌+f◌
  +f_low low low' =
      subst (λ z. z ≤ℤ round (a +ℤ b)) round-zero
        (round_mono (pos 0) (a +ℤ b) (ground (arith, +ℤ_parts a b)))

  pub -f_low : b ≤ℤ a → pos 0 ≤ℤ a -f b
  unfolding ◌-f◌
  -f_low below =
      subst (λ z. z ≤ℤ round (a -ℤ b)) round-zero
        (round_mono (pos 0) (a -ℤ b) (ground (arith, -ℤ_parts a b)))

  pub -f_high : (top : ℤ) → round top ≡ top → a ≤ℤ top → pos 0 ≤ℤ b → a -f b ≤ℤ top
  unfolding ◌-f◌
  -f_high top exact high low =
      subst (λ z. round (a -ℤ b) ≤ℤ z) exact
        (round_mono (a -ℤ b) top (ground (arith, -ℤ_parts a b)))
