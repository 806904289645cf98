-- ===== src/Code/Fuel/Steps.antt =====
-- What stands between the evaluations extends where the evaluations do.
use yast_core.Prelude.{
  List, ◌==◌, ℕ, Bool, true, false, not, ◌&&◌, Option, none, some, if◌then◌else◌,
}
use yast_core.Values.Defs.{Value, Values, Pairs, Doubles, null, void, boolean, list, return_value}
use yast_core.Values.Map
use yast_core.Code.Syntax.{Code, YcpFunction}
use yast_core.Code.State.{State, push_to_stack}
use yast_core.Code.Outcome.{Outcome, done, fault}
use yast_core.Code.Convert.{is_nil}
use yast_core.Code.Bracket.{select}
use yast_core.Code.Steps.{
  unless_null, branch, choose, while_test, after_while, after_body, until_test, do_test, while_null,
  or_else, and_also, checked, key_or_null, add_pair, structure, access, set_parameters, call_with,
  evaluate_call, push_frame, pop_frame, call_function,
}
use yast_core.Code.Fuel.{Extends, Extends-refl, Extends-bind}

abbrev pub More : (State → Outcome) → (State → Outcome) → Type 0
More k k' = (s : State) → Extends (k s) (k' s)

abbrev pub MoreFor : (Value → State → Outcome) → (Value → State → Outcome) → Type 0
MoreFor k k' = (v : Value) (s : State) → Extends (k v s) (k' v s)

either :
    (b : Bool) (o o' p p' : Outcome)
    → Extends o o'
    → Extends p p'
    → Extends (if b then o else p) (if b then o' else p')
either true o o' p p' h k = h
either false o o' p p' h k = k

pub unless_null-More :
    (k k' : Value → State → Outcome) → MoreFor k k' → MoreFor (unless_null k) (unless_null k')
unless_null-More k k' h null s = Extends-refl _
unless_null-More k k' h v s = h v s

pub branch-More :
    (a a' b b' : State → Outcome) → More a a' → More b b' → MoreFor (branch a b) (branch a' b')
branch-More a a' b b' h p null s = Extends-refl _
branch-More a a' b b' h p (boolean true) s = h s
branch-More a a' b b' h p v s = p s

pub choose-More :
    (a a' b b' : State → Outcome) → More a a' → More b b' → MoreFor (choose a b) (choose a' b')
choose-More a a' b b' h p (boolean true) s = h s
choose-More a a' b b' h p (boolean false) s = p s
choose-More a a' b b' h p v s = either (is_nil v) _ _ _ _ (p s) (Extends-refl (done null s))

pub while_test-More : (a a' : State → Outcome) → More a a' → MoreFor (while_test a) (while_test a')
while_test-More a a' h (boolean true) s = h s
while_test-More a a' h v s = Extends-refl _

pub after_while-More :
    (a a' : State → Outcome) → More a a' → MoreFor (after_while a) (after_while a')
after_while-More a a' h null s = h s
after_while-More a a' h void s = h s
after_while-More a a' h v s = Extends-refl _

pub after_body-More : (a a' : State → Outcome) → More a a' → MoreFor (after_body a) (after_body a')
after_body-More a a' h null s = h s
after_body-More a a' h void s = h s
after_body-More a a' h return_value s = h s
after_body-More a a' h v s = Extends-refl _

pub until_test-More : (a a' : State → Outcome) → More a a' → MoreFor (until_test a) (until_test a')
until_test-More a a' h (boolean false) s = h s
until_test-More a a' h v s = Extends-refl _

pub do_test-More : (a a' : State → Outcome) → More a a' → MoreFor (do_test a) (do_test a')
do_test-More a a' h (boolean true) s = h s
do_test-More a a' h v s = Extends-refl _

pub while_null-More : (a a' : State → Outcome) → More a a' → MoreFor (while_null a) (while_null a')
while_null-More a a' h null s = h s
while_null-More a a' h v s = Extends-refl _

pub or_else-More : (a a' : State → Outcome) → More a a' → MoreFor (or_else a) (or_else a')
or_else-More a a' h (boolean true) s = Extends-refl _
or_else-More a a' h (boolean false) s = h s
or_else-More a a' h v s = either (is_nil v) _ _ _ _ (h s) (Extends-refl fault)

pub and_also-More : (a a' : State → Outcome) → More a a' → MoreFor (and_also a) (and_also a')
and_also-More a a' h (boolean true) s = h s
and_also-More a a' h (boolean false) s = Extends-refl _
and_also-More a a' h v s =
    either (is_nil v) _ _ _ _ (Extends-refl (done (boolean false) s)) (Extends-refl fault)

pub checked-More :
    (b : Bool) (k k' : Value → State → Outcome)
    → MoreFor k k'
    → MoreFor (checked b k) (checked b k')
checked-More b k k' h v s = either (not b && is_nil v) _ _ _ _ (Extends-refl (done null s)) (h v s)

pub key_or_null-More :
    (b : Bool) (k k' : Value → State → Outcome)
    → MoreFor k k'
    → MoreFor (key_or_null b k) (key_or_null b k')
key_or_null-More true k k' h null s = Extends-refl _
key_or_null-More true k k' h v s = h v s
key_or_null-More false k k' h v s = h v s

pub add_pair-More :
    (doubles : Doubles) (k v : Value) (m : Pairs) (s : State) (rest rest' : Pairs → Outcome)
    → ((n : Pairs) → Extends (rest n) (rest' n))
    → Extends (add_pair doubles k v m s rest) (add_pair doubles k v m s rest')
add_pair-More doubles k v m s rest rest' h = found (Map.add doubles k v m)
  where
    found :
        (o : Option Pairs)
        → Extends
            (elim o [ none ↦ fault | some n ↦ rest n ])
            (elim o [ none ↦ fault | some n ↦ rest' n ])
    found none = Extends-refl fault
    found (some n) = h n

pub structure-More :
    (a a' : State → Outcome) (k k' : Value → State → Outcome)
    → More a a'
    → MoreFor k k'
    → MoreFor (structure a k) (structure a' k')
structure-More a a' k k' h p v s = either (is_nil v) _ _ _ _ (h s) (p v s)

pub access-More :
    (doubles : Doubles) (var : Value) (a a' : State → Outcome)
    → More a a'
    → MoreFor (access doubles var a) (access doubles var a')
access-More doubles var a a' h (list is) s = found (select doubles var is)
  where
    found :
        (w : Value)
        → Extends (elim w [ null ↦ a s | v ↦ done v s ]) (elim w [ null ↦ a' s | v ↦ done v s ])
    found null = h s
    found v = Extends-refl (done v s)
access-More doubles var a a' h v s = h s

call_with-More :
    (ns : List ℕ) (k k' : State → Outcome) (r : Bool × State)
    → More k k'
    → Extends (call_with ns k r) (call_with ns k' r)
call_with-More ns k k' (false, t) h = Extends-refl _
call_with-More ns k k' (true, t) h = Extends-bind _ _ _ _ (h t) λ v s. Extends-refl _

pub evaluate_call-More :
    (fn : YcpFunction) (run run' : Code → State → Outcome) (vs : Values) (s : State)
    → ((c : Code) → More (run c) (run' c))
    → Extends (evaluate_call fn run vs s) (evaluate_call fn run' vs s)
unfolding evaluate_call
evaluate_call-More fn run run' vs s h = found fn.definition
  where
    found :
        (o : Option Code)
        → Extends
            (elim o [
              | none ↦ done null (push_to_stack fn.parameters s)
              | some c ↦
                  call_with fn.parameters
                    (run c)
                    (set_parameters fn.parameters vs (push_to_stack fn.parameters s))
            ])
            (elim o [
              | none ↦ done null (push_to_stack fn.parameters s)
              | some c ↦
                  call_with fn.parameters
                    (run' c)
                    (set_parameters fn.parameters vs (push_to_stack fn.parameters s))
            ])
    found none = Extends-refl _
    found (some c) = call_with-More _ _ _ _ (h c)

pub call_function-More :
    (limit : ℕ) (fn : YcpFunction) (run run' : Code → State → Outcome)
    → ((c : Code) → More (run c) (run' c))
    → MoreFor (call_function limit fn run) (call_function limit fn run')
unfolding call_function
call_function-More limit fn run run' h (list vs) s =
    either (s.frames == limit) _ _ _ _ (Extends-refl (done void s)) (
      Extends-bind _ _ _ _ (evaluate_call-More fn run run' vs (push_frame s) h)
        λ v t. Extends-refl (done v (pop_frame t)))
call_function-More limit fn run run' h v s = Extends-refl (done v s)
