-- ===== src/Code/Keeps/Recursion.antt =====
-- What recursion may rely on: a block and a function that are entered again give their variables and
-- parameters back.
use yast_core.Prelude.{ℕ, zero, suc, if◌then◌else◌, ◌≡◌, ◌<◌, subst, Bool, true, false, List, some}
use yast_core.Values.Defs.{Value, Values}
use yast_core.Code.Syntax.{Code, Statements, block_of, YcpFunction}
use yast_core.Code.State.{State, push_to_stack, pop_from_stack, set_running}
use yast_core.Code.State.Stacks.{count, value_of-pop_from_stack-push_to_stack}
use yast_core.Code.Outcome.{Outcome, done, Ends, Ends-bind}
use yast_core.Code.Steps.{enter, leave, call_with, evaluate_call}
use yast_core.Code.Eval.{Machine, evaluate, run_statements, evaluate_block}
use yast_core.Code.WellFormed.{IsSound, AreSoundStatements, IsSoundMachine}
use yast_core.Code.Keeps.{Same, Same-trans, Keeps}
use yast_core.Code.Keeps.Calls.{set_parameters-Same}
use yast_core.Code.Keeps.Eval.{evaluate-Keeps, statements-Keeps}

-- What holds at the end holds of the value and the state there.
pub Ends-done :
    (P : Value → State → Type 0) (o : Outcome) (v : Value) (s : State)
    → Ends P o
    → o ≡ done v s
    → P v s
Ends-done P o v s h e = subst (Ends P) e h

-- Evaluation of an expression or a block that ends, with whatever value, leaves the stack for
-- recursion of every symbol entry, the running flag of every block and the number of call frames
-- as they were, if no switch is over a module's block and all functions are defined.
pub evaluate-Same :
    (mc : Machine) (f : ℕ) (c : Code) (s s' : State) (v : Value)
    → IsSoundMachine mc
    → IsSound c
    → evaluate mc f c s ≡ done v s'
    → Same s s'
unfolding Keeps
evaluate-Same mc f c s s' v ok h e =
    Ends-done (λ v t. Same s t) (evaluate mc f c s) v s' (evaluate-Keeps mc ok f c h s tt) e

leave-value_of :
    (b : ℕ) (vars : List ℕ) (n : ℕ) (s t : State) (old : Bool)
    → 0 < count n vars
    → old ≡ true
    → Same (set_running b true (if old then push_to_stack vars s else s)) t
    → (if old then pop_from_stack vars (set_running b old t) else set_running b old t).value_of n
      ≡ s.value_of n
leave-value_of b vars n s t true c r h =
    value_of-pop_from_stack-push_to_stack vars s (set_running b true t) n c (h.stacks n)
leave-value_of b vars n s t false c r h = cc

block-value_of :
    (mc : Machine) (f b : ℕ) (is_statement : Bool) (vars : List ℕ) (xs : Statements) (s : State)
    (n : ℕ)
    → IsSoundMachine mc
    → AreSoundStatements xs
    → s.running b ≡ true
    → 0 < count n vars
    → Ends
        (λ v t. t.value_of n ≡ s.value_of n)
        (evaluate_block mc f (block_of b is_statement false vars xs) s)
unfolding evaluate enter leave Keeps
block-value_of mc zero b is_statement vars xs s n ok h r c = tt
block-value_of mc (suc f) b is_statement vars xs s n ok h r c =
    Ends-bind (λ v t. Same (enter false b vars s) t) (λ v t. t.value_of n ≡ s.value_of n)
      (run_statements mc f xs (enter false b vars s)) _
      (statements-Keeps mc ok f xs h (enter false b vars s) tt)
      (λ v t. leave-value_of b vars n s t (s.running b) c r)

-- A block that is entered while it is running, and is no module's, restores its variables when it
-- ends: each of them has the value that it had before, whatever the statements assigned.
pub value_of-evaluate_block :
    (mc : Machine) (f b : ℕ) (is_statement : Bool) (vars : List ℕ) (xs : Statements) (s s' : State)
    (v : Value) (n : ℕ)
    → IsSoundMachine mc
    → AreSoundStatements xs
    → s.running b ≡ true
    → 0 < count n vars
    → evaluate_block mc f (block_of b is_statement false vars xs) s ≡ done v s'
    → s'.value_of n ≡ s.value_of n
value_of-evaluate_block mc f b is_statement vars xs s s' v n ok h r c e =
    Ends-done (λ v t. t.value_of n ≡ s.value_of n)
      (evaluate_block mc f (block_of b is_statement false vars xs) s) v s'
      (block-value_of mc f b is_statement vars xs s n ok h r c) e

call_with-value_of :
    (ns : List ℕ) (body : State → Outcome) (s : State) (r : Bool × State) (n : ℕ)
    → ((t : State) → Keeps t (body t))
    → Same (push_to_stack ns s) (r.1)
    → 0 < count n ns
    → Ends (λ v t. t.value_of n ≡ s.value_of n) (call_with ns body r)
unfolding Keeps
call_with-value_of ns body s (false, t) n h p c =
    value_of-pop_from_stack-push_to_stack ns s t n c (p.stacks n)
call_with-value_of ns body s (true, t) n h p c =
    Ends-bind (λ v u. Same t u) (λ v u. u.value_of n ≡ s.value_of n) (body t) _ (h t)
      λ v u q. value_of-pop_from_stack-push_to_stack ns s u n c ((Same-trans p q).stacks n)

call-value_of :
    (mc : Machine) (f : ℕ) (fn : YcpFunction) (c : Code) (vs : Values) (s : State) (n : ℕ)
    → IsSoundMachine mc
    → fn.definition ≡ some c
    → IsSound c
    → 0 < count n fn.parameters
    → Ends (λ v t. t.value_of n ≡ s.value_of n) (evaluate_call fn (evaluate mc f) vs s)
unfolding evaluate_call
call-value_of mc f fn c vs s n ok d h p = rw d (
    call_with-value_of fn.parameters (evaluate mc f c) s _ n (λ t. evaluate-Keeps mc ok f c h t tt)
      (set_parameters-Same fn.parameters vs (push_to_stack fn.parameters s)) p)

-- A call of a function gives each of its parameters the value back that it had before the call,
-- if the parameters and the definition were evaluated, or one was not specified.
pub value_of-evaluate_call :
    (mc : Machine) (f : ℕ) (fn : YcpFunction) (c : Code) (vs : Values) (s s' : State) (v : Value)
    (n : ℕ)
    → IsSoundMachine mc
    → fn.definition ≡ some c
    → IsSound c
    → 0 < count n fn.parameters
    → evaluate_call fn (evaluate mc f) vs s ≡ done v s'
    → s'.value_of n ≡ s.value_of n
value_of-evaluate_call mc f fn c vs s s' v n ok d h p e =
    Ends-done (λ v t. t.value_of n ≡ s.value_of n) (evaluate_call fn (evaluate mc f) vs s) v s'
      (call-value_of mc f fn c vs s n ok d h p) e
