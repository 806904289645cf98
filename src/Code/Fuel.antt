-- ===== src/Code/Fuel.antt =====
-- Outcomes that differ in nothing but that more fuel was there.
pub mod Steps
pub mod Eval
use yast_core.Prelude.{◌≡◌, ◌≢◌, refl}
use yast_core.Values.Defs.{Value}
use yast_core.Code.State.{State}
use yast_core.Code.Outcome.{Outcome, done, fault, no_fuel, ◌>>=◌}

unfoldable pub Extends : Outcome → Outcome → Type 0
Extends no_fuel o = Unit
Extends (done v s) o = o ≡ done v s
Extends fault o = o ≡ fault

pub Extends-refl : (o : Outcome) → Extends o o
unfolding Extends
Extends-refl no_fuel = tt
Extends-refl (done v s) = refl
Extends-refl fault = refl

pub Extends-eq : (o p : Outcome) → Extends o p → o ≢ no_fuel → p ≡ o
unfolding Extends
Extends-eq no_fuel p h n = absurd (n refl)
Extends-eq (done v s) p h n = h
Extends-eq fault p h n = h

pub Extends-bind :
    (m m' : Outcome) (k k' : Value × State → Outcome)
    → Extends m m'
    → ((v : Value) (s : State) → Extends (k (v, s)) (k' (v, s)))
    → Extends (m >>= k) (m' >>= k')
unfolding Extends
Extends-bind no_fuel m' k k' h r = tt
Extends-bind (done v s) m' k k' h r = rw h (r v s)
Extends-bind fault m' k k' h r = rw h refl
