-- ===== src/Common/Fallible.antt =====
-- Chains of fallible calls, for `do` blocks over `Result`.
use multi_robot_fulfillment.Common.Outcome.{Result, ok, err}

infixl 5 ◌>>=◌
abbrev pub ◌>>=◌ {ℓ κ} : {A : Type ℓ} {B : Type κ} → Result A → (A → Result B) → Result B
ok a >>= f = f a
err e >>= f = err e
