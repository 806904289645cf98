-- ===== src/Code/Tests.antt =====
-- Examples for the evaluation of code.
use yast_core.Prelude.{
  ℕ, ◌≡◌, ◌≢◌, refl, true, false, some, [], ◌⊎◌, ◌∷◌, ◌==◌, ltb, arith, inl, inr, ◌+◌,
}
use yast_core.Prelude.Int.{pos}
use yast_core.Types.Kind.{integer_t}
use yast_core.Types.Defs.{YcpType, base, list as list_type, plain}
use yast_core.Values.Defs.{
  Value, Values, Doubles, null, void, boolean, integer, list, map, nil, cons, entry, end,
  break_value, return_value,
}
use yast_core.Values.List.{set}
use yast_core.Values.Map
use yast_core.Values.Compare.{compare}
use yast_core.Code.Syntax.{
  Code, constant, variable, call, block_code, codes, no_codes, assign, expression, return,
  return_nothing, if_statement, while_loop, repeat_loop, Body, no_body, single, Statements, finish,
  next, Block, block_of, YcpFunction,
}
use yast_core.Code.State.{State, set_value, push_to_stack, pop_from_stack}
use yast_core.Code.State.Stacks.{count}
use yast_core.Code.Outcome.{Outcome, done, no_fuel}
use yast_core.Values.List.{push_back}
use yast_core.Code.Steps.{evaluate_call, call_function, enter, leave}
use yast_core.Code.WellFormed.{IsSoundMachine}
use yast_core.Code.LoopFree.{IsLoopFree}
use yast_core.Code.Stops.Eval.{AreLoopFreeFunctions}
use yast_core.Code.Eval.{Machine, evaluate, execute, evaluate_block}
use yast_core.Code.Keeps.{Same}
use yast_core.Code.Keeps.Recursion.{evaluate-Same, value_of-evaluate_block, value_of-evaluate_call}
use yast_core.Code.Stops.Limit.{evaluate-ne-no_fuel}
use yast_core.Code.Loops.{execute-while_loop, execute-repeat_loop-do_loop}
use yast_core.Code.Loops.Total.{Round, while_loop_total}
use yast_core.Code.Bracket.{select, commit}
use yast_core.Code.Bracket.RoundTrip.{LeadsThrough, select-commit}

abbrev naturals : Doubles
naturals = record { eq = λ f g. f == g; lt = λ f g. ltb f g }

-- `{ v2 = v1; if (v1) f (false); return v2; }`
abbrev body : Statements
body = next (assign 2 (variable 1)) (
    next
      (if_statement (variable 1)
        (single (expression (call 0 (codes (constant (boolean false)) no_codes)))) no_body)
      (next (return (variable 2)) finish))

abbrev body_block : Block
body_block = block_of 7 false false (2 ∷ []) body

abbrev f : YcpFunction
f = record { parameters = 1 ∷ []; definition = some (block_code body_block) }

abbrev mc : Machine
mc = record {
  doubles = naturals;
  conversions = record { to_double = λ i. 0; to_integer = pos };
  recursion_limit = 2;
  functions = λ n. f;
}

-- Nothing runs, and every variable is `true`.
abbrev start : State
start = record {
  value_of = λ n. boolean true;
  stack_of = λ n. [];
  running = λ b. false;
  frames = 0;
}

abbrev running : State
running = record {
  value_of = λ n. boolean true;
  stack_of = λ n. [];
  running = λ b. true;
  frames = 0;
}

-- `f (true)`
abbrev program : Code
program = call 0 (codes (constant (boolean true)) no_codes)

abbrev state_of : State → Outcome → State
state_of s (done v t) = t
state_of s o = s

abbrev after_program : State
after_program = state_of start (evaluate mc 20 program start)

-- The nested call overwrites the variable and the parameter of the outer one.
program_result : evaluate mc 20 program start ≡ done (boolean true) after_program
unfolding evaluate call_function push_back enter push_to_stack pop_from_stack leave
program_result = refl

mc-IsSound : IsSoundMachine mc
unfolding IsSoundMachine
mc-IsSound n = (tt, ((tt, (tt, tt), tt), (tt, tt)))

evaluate-Same_example : Same start after_program
unfolding IsSoundMachine
evaluate-Same_example =
    evaluate-Same mc 20 program start after_program (boolean true) mc-IsSound (tt, tt)
      program_result

abbrev after_block : State
after_block = state_of running (evaluate_block mc 20 body_block running)

block_result : evaluate_block mc 20 body_block running ≡ done (boolean true) after_block
unfolding evaluate call_function push_back enter push_to_stack pop_from_stack leave
block_result = refl

value_of-evaluate_block_example : after_block.value_of 2 ≡ boolean true
unfolding IsSoundMachine count
value_of-evaluate_block_example =
    value_of-evaluate_block mc 20 7 false (2 ∷ []) body running after_block (boolean true) 2
      mc-IsSound (tt, ((tt, (tt, tt), tt), (tt, tt))) refl (omega arith) block_result

abbrev false_argument : Values
false_argument = cons (boolean false) nil

abbrev after_call : State
after_call = state_of start (evaluate_call f (evaluate mc 20) false_argument start)

call_result :
    evaluate_call f (evaluate mc 20) false_argument start ≡ done (boolean false) after_call
unfolding evaluate call_function push_back enter push_to_stack pop_from_stack leave
call_result = refl

value_of-evaluate_call_example : after_call.value_of 1 ≡ boolean true
unfolding IsSoundMachine count
value_of-evaluate_call_example =
    value_of-evaluate_call mc 20 f (block_code body_block) false_argument start after_call
      (boolean false) 1 mc-IsSound refl (tt, ((tt, (tt, tt), tt), (tt, tt))) (omega arith)
      call_result

evaluate-ne-no_fuel_example : evaluate mc 50 program start ≢ no_fuel
unfolding AreLoopFreeFunctions IsLoopFree
evaluate-ne-no_fuel_example =
    evaluate-ne-no_fuel mc 19 50 program start
      (λ n. ((tt, ((tt, (tt, tt), tt), (tt, tt))), omega arith)) (tt, tt) (omega arith)
      (omega arith)

-- `v0 = false;`
abbrev clear : Body
clear = single (assign 0 (constant (boolean false)))

abbrev cleared : State
cleared = set_value 0 (boolean false) start

-- `while (v0) v0 = false;`
while_result : execute mc 9 (while_loop (variable 0) clear) start ≡ done null cleared
unfolding evaluate
while_result = refl

execute-while_loop_example : (null ≢ void) × (null ≢ break_value)
execute-while_loop_example =
    execute-while_loop mc 9 (variable 0) clear start cleared null while_result

-- `repeat return; until (v0);`
repeat_result :
    execute mc 9 (repeat_loop (single return_nothing) (variable 0)) start ≡ done null start
unfolding evaluate
repeat_result = refl

execute-repeat_loop-do_loop_example : (null ≢ void) × (null ≢ break_value) × (null ≢ return_value)
execute-repeat_loop-do_loop_example =
    execute-repeat_loop-do_loop mc 9 (single return_nothing) (variable 0) start start null
      (inl repeat_result)

abbrev flag : Value → ℕ
flag (boolean true) = 1
flag v = 0

abbrev IsFlag : State → Type 0
IsFlag s = (s.value_of 0 ≡ boolean true) ⊎ (s.value_of 0 ≡ boolean false)

clear-Round :
    (s : State)
    → IsFlag s
    → Round mc 3
        (variable 0)
        clear
        IsFlag
        (λ s. s.value_of 0 ≡ boolean false)
        (λ s. flag (s.value_of 0))
        s
unfolding evaluate
clear-Round s (inl e) = inr (
  s,
  set_value 0 (boolean false) s,
  null,
  rw e refl,
  refl,
  inl refl,
  inr refl,
  rw e (omega arith),
)
clear-Round s (inr e) = inl (s, rw e refl, e)

while_loop_total_example :
    (t : State) × (execute mc 5 (while_loop (variable 0) clear) start ≡ done null t)
    × (t.value_of 0 ≡ boolean false)
while_loop_total_example =
    while_loop_total mc 3 (variable 0) clear IsFlag (λ s. s.value_of 0 ≡ boolean false)
      (λ s. flag (s.value_of 0)) start clear-Round (inl refl)

-- `v[1, 2] = 9` for `v` that is `$[ 1 : [ true ] ]`
abbrev before : Value
before = map (entry (integer (pos 1)) (list (cons (boolean true) nil)) end)

abbrev indices : Values
indices = cons (integer (pos 1)) (cons (integer (pos 2)) nil)

abbrev after : Value
after = map (
    entry (integer (pos 1)) (list (cons (boolean true) (cons void (cons (integer (pos 9)) nil))))
      end)

indices_lead : LeadsThrough naturals before indices
unfolding LeadsThrough Map.value compare
indices_lead = (tt, (tt, tt, tt), (omega arith, tt))

commit_result : commit naturals before indices (integer (pos 9)) ≡ some after
unfolding commit Map.value compare Map.functional_add set
commit_result = refl

select-commit_example :
    ((false ≡ false) × (after ≡ null)) ⊎ (select naturals after indices ≡ integer (pos 9))
select-commit_example =
    select-commit naturals indices before (integer (pos 9)) after indices_lead (λ e. cc)
      commit_result

far_index :
    commit naturals (list nil) (cons (integer (pos (1 + 4294967296))) nil) (boolean true)
    ≡ some (list (cons void (cons (boolean true) nil)))
unfolding commit set
far_index = refl

-- `list <integer>`, and `[5, nil]`
abbrev integers : YcpType
integers = list_type plain (base integer_t plain)

abbrev five_nil : Value
five_nil = list (cons (integer (pos 5)) (cons void nil))
