-- ===== src/Base/Outcomes.antt =====
-- A Go call that returns a value and an error: one of the two.
use mathlib.Core.Path.{◌≡◌, refl, ap}
use mathlib.Core.Option.{Option, none, some}

pub data Outcome (E A : Type 0) : Type 0 where
  success : A → Outcome E A
  failure : E → Outcome E A

module _ {E A B : Type 0} where
  infixl 5 ◌>>=◌
  abbrev pub ◌>>=◌ : Outcome E A → (A → Outcome E B) → Outcome E B
  success a >>= f = f a
  failure e >>= f = failure e

  -- Inversion of a chain that gives a value.
  pub >>=-eq-success :
      (m : Outcome E A) (f : A → Outcome E B) {b : B}
      → (m >>= f) ≡ success b
      → (a : A) × (m ≡ success a) × (f a ≡ success b)
  >>=-eq-success (success a) f h = (a, refl, h)
  >>=-eq-success (failure e) f h = cc

module _ {E A : Type 0} where
  success_value : A → Outcome E A → A
  success_value d (success a) = a
  success_value d (failure e) = d

  pub success-injective : {a b : A} → ◌≡◌ {A = Outcome E A} (success a) (success b) → a ≡ b
  unfolding success_value
  success-injective {a} h = ap (success_value a) h

-- An absent value is an error.
abbrev pub or_fail : {E A : Type 0} → E → Option A → Outcome E A
or_fail e none = failure e
or_fail e (some a) = success a

pub or_fail-success :
    {E A : Type 0} (e : E) (o : Option A) {a : A} → or_fail e o ≡ success a → o ≡ some a
or_fail-success e none h = cc
or_fail-success e (some a) h = ap some (success-injective h)
