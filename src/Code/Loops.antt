-- ===== src/Code/Loops.antt =====
-- What the loops and the switch of libycp/src/YStatement.cc hand to the block around them.
pub mod Total
use yast_core.Prelude.{ℕ, zero, suc, ◌≡◌, ◌≢◌, true, false, ◌⊎◌, inl, inr}
use yast_core.Values.Defs.{Value, null, void, boolean, break_value, return_value}
use yast_core.Code.Syntax.{Code, while_loop, repeat_loop, do_loop, Body}
use yast_core.Code.State.{State}
use yast_core.Code.Outcome.{Outcome, done, fault, no_fuel, ◌>>=◌, Ends}
use yast_core.Code.Steps.{while_test, after_while, after_body, until_test, do_test}
use yast_core.Code.Eval.{Machine, evaluate, execute, run_body}
use yast_core.Code.Keeps.Recursion.{Ends-done}

-- Neither does the block go on with the next statement in vain, nor is a break handed on.
abbrev LeavesWhile : Value → State → Type 0
LeavesWhile v s = (v ≢ void) × (v ≢ break_value)

abbrev LeavesBody : Value → State → Type 0
LeavesBody v s = (v ≢ void) × (v ≢ break_value) × (v ≢ return_value)

Ends-any :
    (Q : Value → State → Type 0) (m : Outcome) (k : Value × State → Outcome)
    → ((v : Value) (s : State) → Ends Q (k (v, s)))
    → Ends Q (m >>= k)
Ends-any Q (done v s) k h = h v s
Ends-any Q fault k h = tt
Ends-any Q no_fuel k h = tt

while_test-leaves :
    (a : State → Outcome) (v : Value) (s : State)
    → ((t : State) → Ends LeavesWhile (a t))
    → Ends LeavesWhile (while_test a v s)
while_test-leaves a (boolean true) s h = h s
while_test-leaves a v s h = (λ e. cc, λ e. cc)

after_while-leaves :
    (again : State → Outcome) (v : Value) (s : State)
    → ((t : State) → Ends LeavesWhile (again t))
    → Ends LeavesWhile (after_while again v s)
after_while-leaves again null s h = h s
after_while-leaves again void s h = h s
after_while-leaves again v s h = (λ e. cc, λ e. cc)

until_test-leaves :
    (a : State → Outcome) (v : Value) (s : State)
    → ((t : State) → Ends LeavesBody (a t))
    → Ends LeavesBody (until_test a v s)
until_test-leaves a (boolean false) s h = h s
until_test-leaves a v s h = (λ e. cc, λ e. cc, λ e. cc)

do_test-leaves :
    (a : State → Outcome) (v : Value) (s : State)
    → ((t : State) → Ends LeavesBody (a t))
    → Ends LeavesBody (do_test a v s)
do_test-leaves a (boolean true) s h = h s
do_test-leaves a v s h = (λ e. cc, λ e. cc, λ e. cc)

after_body-leaves :
    (a : State → Outcome) (v : Value) (s : State)
    → ((t : State) → Ends LeavesBody (a t))
    → Ends LeavesBody (after_body a v s)
after_body-leaves a null s h = h s
after_body-leaves a void s h = h s
after_body-leaves a return_value s h = h s
after_body-leaves a v s h = (λ e. cc, λ e. cc, λ e. cc)

while-leaves :
    (mc : Machine) (f : ℕ) (c : Code) (b : Body) (s : State)
    → Ends LeavesWhile (execute mc f (while_loop c b) s)
unfolding evaluate
while-leaves mc zero c b s = tt
while-leaves mc (suc f) c b s = Ends-any LeavesWhile (evaluate mc f c s) _ λ v t.
    while_test-leaves _ v t λ t.
      Ends-any LeavesWhile (run_body mc f b t) _
        λ w u. after_while-leaves _ w u (while-leaves mc f c b)

repeat-leaves :
    (mc : Machine) (f : ℕ) (b : Body) (c : Code) (s : State)
    → Ends LeavesBody (execute mc f (repeat_loop b c) s)
unfolding evaluate
repeat-leaves mc zero b c s = tt
repeat-leaves mc (suc f) b c s = Ends-any LeavesBody (run_body mc f b s) _ λ w t.
    after_body-leaves _ w t λ t.
      Ends-any LeavesBody (evaluate mc f c t) _
        λ v u. until_test-leaves _ v u (repeat-leaves mc f b c)

do-leaves :
    (mc : Machine) (f : ℕ) (b : Body) (c : Code) (s : State)
    → Ends LeavesBody (execute mc f (do_loop b c) s)
unfolding evaluate
do-leaves mc zero b c s = tt
do-leaves mc (suc f) b c s = Ends-any LeavesBody (run_body mc f b s) _ λ w t.
    after_body-leaves _ w t λ t.
      Ends-any LeavesBody (evaluate mc f c t) _ λ v u. do_test-leaves _ v u (do-leaves mc f b c)

-- A while loop that ends gives null, the result of `return;` or a value that is neither void nor
-- the result of `break`: a continue or a break in its body does not reach the block around it.
pub execute-while_loop :
    (mc : Machine) (f : ℕ) (c : Code) (b : Body) (s s' : State) (v : Value)
    → execute mc f (while_loop c b) s ≡ done v s'
    → (v ≢ void) × (v ≢ break_value)
execute-while_loop mc f c b s s' v e =
    Ends-done LeavesWhile (execute mc f (while_loop c b) s) v s' (while-leaves mc f c b s) e

-- A repeat or a do loop that ends gives neither void nor the result of `break`, and not the result
-- of `return;` either: its body's `return;` is taken for the end of a round.
pub execute-repeat_loop-do_loop :
    (mc : Machine) (f : ℕ) (b : Body) (c : Code) (s s' : State) (v : Value)
    → (execute mc f (repeat_loop b c) s ≡ done v s') ⊎ (execute mc f (do_loop b c) s ≡ done v s')
    → (v ≢ void) × (v ≢ break_value) × (v ≢ return_value)
execute-repeat_loop-do_loop mc f b c s s' v (inl e) =
    Ends-done LeavesBody (execute mc f (repeat_loop b c) s) v s' (repeat-leaves mc f b c s) e
execute-repeat_loop-do_loop mc f b c s s' v (inr e) =
    Ends-done LeavesBody (execute mc f (do_loop b c) s) v s' (do-leaves mc f b c s) e
