-- ===== src/Common/Outcome.antt =====
-- What a function gives that can do what C leaves undefined, as to use a null pointer.
use mapper_framework_c.Prelude.{Bool, true, false, Option, none, some}

-- `fault` is undefined behaviour: the program ends.
pub data Outcome {ℓ} (A : Type ℓ) : Type ℓ where
  fault : Outcome A
  done : A → Outcome A

infixl 5 ◌>>=◌
abbrev pub ◌>>=◌ {ℓ κ} : {A : Type ℓ} {B : Type κ} → Outcome A → (A → Outcome B) → Outcome B
fault >>= f = fault
done a >>= f = f a

-- The dereference of a pointer.
abbrev pub deref {ℓ} : {A : Type ℓ} → Option A → Outcome A
deref none = fault
deref (some a) = done a

abbrev pub is_done {ℓ} : {A : Type ℓ} → Outcome A → Bool
is_done fault = false
is_done (done a) = true
