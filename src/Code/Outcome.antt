-- ===== src/Code/Outcome.antt =====
-- How evaluation ends: with a value and the state, with a fault of the process (an abort, a null
-- access), or without an answer because the fuel of the model is used up.
use yast_core.Prelude.{Option, none, some}
use yast_core.Values.Defs.{Value}
use yast_core.Code.State.{State}

pub data Outcome : Type 0 where
  done : Value → State → Outcome
  fault no_fuel : Outcome

infixl 5 ◌>>=◌
abbrev pub ◌>>=◌ : Outcome → (Value × State → Outcome) → Outcome
done v s >>= k = k (v, s)
fault >>= k = fault
no_fuel >>= k = no_fuel

-- A value that a library routine computes, or its fault.
abbrev pub ended : Option Value → State → Outcome
ended none s = fault
ended (some v) s = done v s

-- `P` holds of the value and the state, if there are any.
abbrev pub Ends {ℓ} : (Value → State → Type ℓ) → Outcome → Type ℓ
Ends P (done v s) = P v s
Ends P _ = Unit

pub Ends-bind {ℓ} :
    (P Q : Value → State → Type ℓ) (m : Outcome) (k : Value × State → Outcome)
    → Ends P m
    → ((v : Value) (s : State) → P v s → Ends Q (k (v, s)))
    → Ends Q (m >>= k)
Ends-bind P Q (done v s) k p h = h v s p
Ends-bind P Q fault k p h = tt
Ends-bind P Q no_fuel k p h = tt
