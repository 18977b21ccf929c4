-- ===== src/Outcome.antt =====
-- What a call leaves behind: `error_handling.h`, the standard library's faults, and the surroundings
-- that the containers talk to.
use raccoon_ecs.Common.{ℕ, ◌≡◌, arith}

-- `void*`, with `nullptr`.
abbrev pub Ptr : Type 0
Ptr = ℕ

abbrev pub nullptr : Ptr
nullptr = 0

-- How a call can fail to return: a call of an empty `std::function`, an access past a vector's end, the
-- use of a pool slot that is not there or not in the state that is taken for granted, or an `int` that
-- overflows.
pub data Fault : Type 0 where
  bad_function_call out_of_range invalid_slot int_overflow : Fault

pub data Outcome {ℓ} (A : Type ℓ) : Type ℓ where
  ok : A → Outcome A
  fault : Fault → Outcome A

infixl 5 ◌>>=◌
abbrev pub ◌>>=◌ {ℓ κ} : {A : Type ℓ} {B : Type κ} → Outcome A → (A → Outcome B) → Outcome B
ok a >>= f = f a
fault e >>= f = fault e

pub ok-injective : {A : Type 0} {a b : A} → ok a ≡ ok b → a ≡ b
ok-injective e = ground arith
