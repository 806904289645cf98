-- ===== src/Code/Keeps/Calls.antt =====
-- Blocks and calls keep the state where their statements and definitions do.
use yast_core.Prelude.{
  ℕ, ◌≡◌, refl, ap, subst, ◌∙◌, Bool, true, false, List, [], ◌∷◌, some, ◌==◌, if◌then◌else◌, arith,
}
use yast_core.Values.Defs.{Value, Values, null, void, nil, cons, list}
use yast_core.Code.Syntax.{Code, YcpFunction}
use yast_core.Code.State.{State, update, push_to_stack, pop_from_stack, set_running, set_value}
use yast_core.Code.State.Stacks.{
  running-push_to_stack, frames-push_to_stack, running-pop_from_stack, frames-pop_from_stack,
  stack_of-pop_from_stack-push_to_stack,
}
use yast_core.Code.Outcome.{Outcome, Ends-bind}
use yast_core.Code.Steps.{
  enter, enter_from, leave, set_parameters, call_with, evaluate_call, push_frame, pop_frame,
  call_function,
}
use yast_core.Code.Keeps.{Same, Same-refl, Same-trans, Keeps, Keeps-done}

-- Behind statements that keep what `entered` gave, the block's own changes are taken back.
pub Same-pop_from_stack :
    (ns : List ℕ) (s s' : State) → Same (push_to_stack ns s) s' → Same s (pop_from_stack ns s')
Same-pop_from_stack ns s s' h = record {
  stacks = λ n. stack_of-pop_from_stack-push_to_stack ns s s' n (h.stacks n);
  flags = λ n.
      ap (λ r. r n) (running-pop_from_stack ns s')
      ∙ h.flags n
      ∙ ap (λ r. r n) (running-push_to_stack ns s);
  depth = frames-pop_from_stack ns s' ∙ h.depth ∙ frames-push_to_stack ns s;
}

update-back :
    (r r' : ℕ → Bool) (b j : ℕ) (v : Bool) → r' j ≡ update r b v j → update r' b (r b) j ≡ r j
update-back r r' b j v h = grind arith

Same-set_running :
    (b : ℕ) (s s' : State)
    → Same (set_running b true s) s'
    → Same s (set_running b (s.running b) s')
Same-set_running b s s' h = record {
  stacks = h.stacks;
  flags = λ j. update-back s.running s'.running b j true (h.flags j);
  depth = h.depth;
}

-- The same for a block that is no module's, with its flag's old value as a variable.
leave_back :
    (b : ℕ) (ns : List ℕ) (s s' : State) (old : Bool)
    → s.running b ≡ old
    → Same (set_running b true (if old then push_to_stack ns s else s)) s'
    → Same s (if old then pop_from_stack ns (set_running b old s') else set_running b old s')
leave_back b ns s s' false e h =
    subst (λ f. Same s (set_running b f s')) e (Same-set_running b s s' h)
leave_back b ns s s' true e h =
    let flag = ap (λ r. r b) (running-push_to_stack ns s) ∙ e in
    Same-pop_from_stack ns s (set_running b true s') (
      subst (λ f. Same (push_to_stack ns s) (set_running b f s')) flag
        (Same-set_running b (push_to_stack ns s) s' h))

pub leave-Same :
    (is_module : Bool) (b : ℕ) (ns : List ℕ) (s s' : State)
    → Same (enter is_module b ns s) s'
    → Same s (leave is_module b ns (s.running b) s')
unfolding enter leave
leave-Same true b ns s s' h = Same-set_running b s s' h
leave-Same false b ns s s' h = leave_back b ns s s' (s.running b) refl h

pub leave-Same_from :
    (b : ℕ) (ns : List ℕ) (s s' : State)
    → Same (enter_from b ns s) s'
    → Same s (leave false b ns (s.running b) s')
unfolding enter_from leave
leave-Same_from b ns s s' h = leave_back b ns s s' (s.running b) refl h

pub set_parameters-Same :
    (ns : List ℕ) (vs : Values) (s : State) → Same s ((set_parameters ns vs s).1)
unfolding set_parameters
set_parameters-Same [] vs s = Same-refl s
set_parameters-Same (n ∷ ns) nil s = Same-refl s
set_parameters-Same (n ∷ ns) (cons null vs) s = Same-refl s
set_parameters-Same (n ∷ ns) (cons v vs) s =
    Same-trans (record { stacks = λ j. refl; flags = λ j. refl; depth = refl })
      (set_parameters-Same ns vs (set_value n v s))

pub call_with-Keeps :
    (ns : List ℕ) (body : State → Outcome) (s : State) (r : Bool × State)
    → ((t : State) → Keeps t (body t))
    → Same (push_to_stack ns s) (r.1)
    → Keeps s (call_with ns body r)
unfolding Keeps
call_with-Keeps ns body s (false, t) h p = Same-pop_from_stack ns s t p
call_with-Keeps ns body s (true, t) h p =
    Ends-bind (λ v u. Same t u) (λ v u. Same s u) (body t) _ (h t)
      λ v u q. Same-pop_from_stack ns s u (Same-trans p q)

pub evaluate_call-Keeps :
    (fn : YcpFunction) (c : Code) (run : Code → State → Outcome) (vs : Values) (s : State)
    → fn.definition ≡ some c
    → ((t : State) → Keeps t (run c t))
    → Keeps s (evaluate_call fn run vs s)
unfolding evaluate_call
evaluate_call-Keeps fn c run vs s e h = rw e (
    call_with-Keeps fn.parameters (run c) s _ h
      (set_parameters-Same fn.parameters vs (push_to_stack fn.parameters s)))

Same-pop_frame : (s u : State) → Same (push_frame s) u → Same s (pop_frame u)
Same-pop_frame s u h = record { stacks = h.stacks; flags = h.flags; depth = omega (arith, h.depth) }

Keeps-if :
    (b : Bool) (s : State) (o p : Outcome) → Keeps s o → Keeps s p → Keeps s (if b then o else p)
Keeps-if true s o p h k = h
Keeps-if false s o p h k = k

pub call_function-Keeps :
    (limit : ℕ) (fn : YcpFunction) (c : Code) (run : Code → State → Outcome) (v : Value) (s : State)
    → fn.definition ≡ some c
    → ((t : State) → Keeps t (run c t))
    → Keeps s (call_function limit fn run v s)
unfolding call_function Keeps
call_function-Keeps limit fn c run (list vs) s e h =
    Keeps-if (s.frames == limit) s _ _ (Keeps-done s void) (
      Ends-bind (λ v u. Same (push_frame s) u) (λ v u. Same s u) _ _
        (evaluate_call-Keeps fn c run vs (push_frame s) e h) (λ v u q. Same-pop_frame s u q))
call_function-Keeps limit fn c run v s e h = Keeps-done s v
