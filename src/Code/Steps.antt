-- ===== src/Code/Steps.antt =====
-- What the evaluate methods of libycp/src/YStatement.cc, libycp/src/YExpression.cc and
-- libycp/src/YBlock.cc do between the evaluations of their parts, which are arguments here.
pub mod Rules
use yast_core.Prelude.{
  ℕ, suc, ◌-◌, Bool, true, false, not, ◌&&◌, List, [], ◌∷◌, Bytes, Option, none, some, ◌==◌,
  if◌then◌else◌,
}
use yast_core.Values.Defs.{
  Value, Values, Pairs, Doubles, null, void, boolean, list, term, break_value, return_value, nil,
  cons,
}
use yast_core.Values.Map.{ycp_less}
use yast_core.Values.Map
use yast_core.Code.Syntax.{Code, constant, YcpFunction}
use yast_core.Code.State.{
  State, void_if_null, set_value, push_to_stack, pop_from_stack, set_running,
}
use yast_core.Code.Outcome.{Outcome, done, fault, ◌>>=◌}
use yast_core.Code.Convert.{is_nil}
use yast_core.Code.Bracket.{select, commit}

-- YSReturn: `return nil;` is treated as `return;`.
abbrev pub return_of : Value → Value
return_of v = if is_nil v then return_value else v

-- A null value is the answer at once.
abbrev pub unless_null : (Value → State → Outcome) → Value → State → Outcome
unless_null k null s = done null s
unless_null k v s = k v s

-- YSIf: what is no boolean counts as false.
abbrev pub branch : (State → Outcome) → (State → Outcome) → Value → State → Outcome
branch on_true on_false null s = done null s
branch on_true on_false (boolean true) s = on_true s
branch on_true on_false v s = on_false s

-- YETriple: nil counts as false, and what is no boolean gives null.
abbrev pub choose : (State → Outcome) → (State → Outcome) → Value → State → Outcome
choose on_true on_false (boolean true) s = on_true s
choose on_true on_false (boolean false) s = on_false s
choose on_true on_false v s = if is_nil v then on_false s else done null s

-- The head of YSWhile's loop.
abbrev pub while_test : (State → Outcome) → Value → State → Outcome
while_test round (boolean true) s = round s
while_test round v s = done null s

-- The tests on the value of the body in YSWhile, in the order of the source.
abbrev pub after_while : (State → Outcome) → Value → State → Outcome
after_while again null s = again s
after_while again break_value s = done null s
after_while again return_value s = done return_value s
after_while again void s = again s
after_while again v s = done v s

-- The same in YSRepeat and YSDo, where isVoid, which holds of the result of `return;`, comes first.
abbrev pub after_body : (State → Outcome) → Value → State → Outcome
after_body test v s =
    if is_nil v
    then test s
    else elim v [ break_value ↦ done null s | return_value ↦ done return_value s | w ↦ done w s ]

-- The condition of YSRepeat and that of YSDo.
abbrev pub until_test : (State → Outcome) → Value → State → Outcome
until_test again (boolean false) s = again s
until_test again v s = done null s

abbrev pub do_test : (State → Outcome) → Value → State → Outcome
do_test again (boolean true) s = again s
do_test again v s = done null s

-- YSSwitch: a break is not propagated.
abbrev pub catch_break : Value → Value
catch_break break_value = null
catch_break v = v

-- The loop of YBlock::evaluate over the statements ends with the first value that is not null.
abbrev pub while_null : (State → Outcome) → Value → State → Outcome
while_null rest null s = rest s
while_null rest v s = done v s

-- The ends of YBlock::evaluate and evaluateFrom: behind the last statement.
abbrev pub block_value : Bool → Value → Value
block_value true null = null
block_value false null = void
block_value is_statement v = v

-- YBlock::evaluate around the statements.
unfoldable pub enter : Bool → ℕ → List ℕ → State → State
enter is_module b variables s =
    set_running b true (if not is_module && s.running b then push_to_stack variables s else s)

-- YBlock::evaluateFrom does not test for a module here.
unfoldable pub enter_from : ℕ → List ℕ → State → State
enter_from b variables s = set_running b true (if s.running b then push_to_stack variables s else s)

-- Where the running flag was `old`.
unfoldable pub leave : Bool → ℕ → List ℕ → Bool → State → State
leave is_module b variables old s =
    let restored = set_running b old s in
    if not is_module && old then pop_from_stack variables restored else restored

-- b_or and b_and of libycp/src/YCPBuiltinBoolean.cc. A second operand of another type aborts.
abbrev pub truth : Value → State → Outcome
truth (boolean b) s = done (boolean b) s
truth v s = if is_nil v then done (boolean false) s else fault

abbrev pub or_else : (State → Outcome) → Value → State → Outcome
or_else second (boolean true) s = done (boolean true) s
or_else second (boolean false) s = second s
or_else second v s = if is_nil v then second s else fault

abbrev pub and_also : (State → Outcome) → Value → State → Outcome
and_also second (boolean true) s = second s
and_also second (boolean false) s = done (boolean false) s
and_also second v s = if is_nil v then done (boolean false) s else fault

-- The tests of YEUnary and YEBinary of an argument.
abbrev pub checked_unary : Bool → (Value → Value) → Value → Value
checked_unary false call null = null
checked_unary takes_nil call v = call v

abbrev pub checked : Bool → (Value → State → Outcome) → Value → State → Outcome
checked takes_nil k v s = if not takes_nil && is_nil v then done null s else k v s

-- YETerm behind its loop.
abbrev pub as_term : Bytes → Value → Value
as_term name (list vs) = term name vs
as_term name v = null

abbrev pub is_constant : Code → Bool
is_constant (constant v) = true
is_constant c = false

-- YEMap: a constant key that is null ends the evaluation.
abbrev pub key_or_null : Bool → (Value → State → Outcome) → Value → State → Outcome
key_or_null true k null s = done null s
key_or_null is_constant k v s = k v s

abbrev pub add_pair : Doubles → Value → Value → Pairs → State → (Pairs → Outcome) → Outcome
add_pair doubles k v m s rest = elim (Map.add doubles k v m) [ none ↦ fault | some n ↦ rest n ]

-- YEBracket: the first operand, and then the list of indices.
abbrev pub structure : (State → Outcome) → (Value → State → Outcome) → Value → State → Outcome
structure default k v s = if is_nil v then default s else k v s

abbrev pub access : Doubles → Value → (State → Outcome) → Value → State → Outcome
access doubles var default (list is) s = elim (select doubles var is) [
  | null ↦ default s
  | v ↦ done v s
]
access doubles var default v s = default s

-- YSBracket::evaluate behind its arguments.
abbrev pub store : ℕ → State → Option Value → Outcome
store n s none = fault
store n s (some null) = done null s
store n s (some v) = done null (set_value n v s)

abbrev pub assign_bracket : Doubles → ℕ → Value → Value → State → Outcome
assign_bracket doubles n (list is) v s =
    store n s (commit doubles (void_if_null (s.value_of n)) is (void_if_null v))
assign_bracket doubles n arg v s = done null s

-- The `find` of YSSwitch in its STL map of cases, which holds them in the order of ycp_less.
unfoldable pub find_case : Doubles → Value → List (Value × ℕ) → Option ℕ
find_case doubles key [] = none
find_case doubles key ((v, i) ∷ cases) =
    if ycp_less doubles v key
    then find_case doubles key cases
    else if not (ycp_less doubles key v)
    then some i
    else none

abbrev pub start_of : Doubles → List (Value × ℕ) → Option ℕ → Value → Option ℕ
start_of doubles cases default v = elim (find_case doubles v cases) [
  | some i ↦ some i
  | none ↦ default
]

-- The loop of Y2YCPFunction::evaluateCall that sets the parameters; false at the first that is not
-- specified.
unfoldable pub set_parameters : List ℕ → Values → State → Bool × State
set_parameters [] vs s = (true, s)
set_parameters (n ∷ ns) nil s = (false, s)
set_parameters (n ∷ ns) (cons null vs) s = (false, s)
set_parameters (n ∷ ns) (cons v vs) s = set_parameters ns vs (set_value n v s)

-- Y2YCPFunction::evaluateCall. A definition that is missing is found behind the pushes.
abbrev pub call_with : List ℕ → (State → Outcome) → Bool × State → Outcome
call_with ns body (false, s) = done null (pop_from_stack ns s)
call_with ns body (true, s) = body s >>= λ (v, s₁). done v (pop_from_stack ns s₁)

unfoldable pub evaluate_call : YcpFunction → (Code → State → Outcome) → Values → State → Outcome
unfolding set_parameters
evaluate_call fn run vs s = elim fn.definition [
  | none ↦ done null (push_to_stack fn.parameters s)
  | some c ↦
      call_with fn.parameters (run c)
        (set_parameters fn.parameters vs (push_to_stack fn.parameters s))
]

-- ExecutionEnvironment::pushframe and popframe.
abbrev pub push_frame : State → State
push_frame s = record s { frames = suc s.frames }

abbrev pub pop_frame : State → State
pop_frame s = record s { frames = s.frames - 1 }

-- YEFunction::evaluate behind its arguments.
unfoldable pub call_function : ℕ → YcpFunction → (Code → State → Outcome) → Value → State → Outcome
unfolding evaluate_call
call_function limit fn run (list vs) s =
    let call = evaluate_call fn run vs (push_frame s) >>= λ (v, s₁). done v (pop_frame s₁) in
    if s.frames == limit then done void s else call
call_function limit fn run v s = done v s
