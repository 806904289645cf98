-- ===== src/Code/Eval.antt =====
-- The evaluate methods of libycp/src/YExpression.cc, libycp/src/YStatement.cc and
-- libycp/src/YBlock.cc at run time (`cse` is false). Code need not stop, so each call, and each round
-- of a loop, spends a unit of fuel. The debugger and the messages are left out.
use yast_core.Prelude.{ℕ, suc, zero, Option, none, some}
use yast_core.Values.Defs.{
  Values, Pairs, Doubles, null, void, list, map, break_value, return_value, nil, end,
}
use yast_core.Values.List.{push_back}
use yast_core.Code.Syntax.{
  Code, constant, variable, comparison, logic_and, logic_or, unary, binary, triple, propagate,
  is_type, list_of, map_of, term_of, bracket, call, block_code, Codes, no_codes, codes, CodePairs,
  no_pairs, pairs, Statement, declaration, break_statement, continue_statement, return_nothing,
  return, expression, block_statement, assign, bracket_assign, if_statement, while_loop,
  repeat_loop, do_loop, switch, Body, no_body, single, block_body, Statements, finish, next, Block,
  block_of, YcpFunction,
}
use yast_core.Code.State.{State, void_if_null, set_value}
use yast_core.Code.Outcome.{Outcome, done, no_fuel, ended, ◌>>=◌}
use yast_core.Code.Convert.{Conversions, compare_values, convert, has_type}
use yast_core.Code.Steps.{
  return_of, unless_null, branch, choose, while_test, after_while, after_body, until_test, do_test,
  catch_break, while_null, block_value, enter, enter_from, leave, truth, or_else, and_also,
  checked_unary, checked, as_term, is_constant, key_or_null, add_pair, structure, access,
  assign_bracket, start_of, call_function,
}

-- The machine's doubles, the recursion limit of ExecutionEnvironment, and the functions.
pub record Machine : Type 0 where
  pub doubles : Doubles
  pub conversions : Conversions
  pub recursion_limit : ℕ
  pub functions : ℕ → YcpFunction

-- The `while` of evaluateFrom that skips statements.
unfoldable pub skip : ℕ → Statements → Statements
skip zero xs = xs
skip (suc i) finish = finish
skip (suc i) (next x xs) = skip i xs

module _ (mc : Machine) where
  unfoldable mutual
    unfolding skip

    pub evaluate : ℕ → Code → State → Outcome
    evaluate zero c s = no_fuel
    evaluate (suc f) (constant v) s = done v s
    evaluate (suc f) (variable n) s = done (void_if_null (s.value_of n)) s
    evaluate (suc f) (comparison op l r) s = do
      (vl, s₁) ← evaluate f l s
      (vr, s₂) ← evaluate f r s₁
      ended (compare_values mc.doubles op vl vr) s₂
    evaluate (suc f) (logic_and a b) s =
        evaluate f a s >>= λ (v, s₁). and_also (λ t. evaluate f b t >>= λ (w, t₁). truth w t₁) v s₁
    evaluate (suc f) (logic_or a b) s =
        evaluate f a s >>= λ (v, s₁). or_else (λ t. evaluate f b t >>= λ (w, t₁). truth w t₁) v s₁
    evaluate (suc f) (unary u a) s = do
      (v, s₁) ← evaluate f a s
      done (checked_unary u.takes_nil u.apply v) s₁
    evaluate (suc f) (binary u a b) s = do
      (v, s₁) ← evaluate f a s
      checked u.takes_nil
          (λ v t.
            evaluate f b t >>= λ (w, t₁). checked u.takes_nil (λ w t. done (u.apply v w) t) w t₁)
          v s₁
    evaluate (suc f) (triple c a b) s =
        evaluate f c s >>= λ (v, s₁). choose (evaluate f a) (evaluate f b) v s₁
    evaluate (suc f) (propagate t a) s = do
      (v, s₁) ← evaluate f a s
      ended (convert mc.conversions t v) s₁
    evaluate (suc f) (is_type t a) s = do (v, s₁) ← evaluate f a s; ended (has_type t v) s₁
    evaluate (suc f) (list_of cs) s = evaluate_list f nil cs s
    evaluate (suc f) (map_of ps) s = evaluate_map f end ps s
    evaluate (suc f) (term_of name cs) s = do
      (v, s₁) ← evaluate_all f nil cs s
      done (as_term name v) s₁
    evaluate (suc f) (bracket var arg def) s = do
      (v, s₁) ← evaluate f var s
      structure (evaluate f def)
          (λ v t. evaluate f arg t >>= λ (a, t₁). access mc.doubles v (evaluate f def) a t₁) v s₁
    evaluate (suc f) (call n cs) s = do
      (v, s₁) ← evaluate_all f nil cs s
      call_function mc.recursion_limit (mc.functions n) (evaluate f) v s₁
    evaluate (suc f) (block_code b) s = evaluate_block f b s

    -- The loop of YEList over its elements, behind `vs`.
    pub evaluate_list : ℕ → Values → Codes → State → Outcome
    evaluate_list zero vs cs s = no_fuel
    evaluate_list (suc f) vs no_codes s = done (list vs) s
    evaluate_list (suc f) vs (codes c cs) s = do
      (v, s₁) ← evaluate f c s
      evaluate_list f (push_back vs (void_if_null v)) cs s₁

    -- The loops of YETerm and YEFunction over their arguments: the first null one ends them.
    pub evaluate_all : ℕ → Values → Codes → State → Outcome
    evaluate_all zero vs cs s = no_fuel
    evaluate_all (suc f) vs no_codes s = done (list vs) s
    evaluate_all (suc f) vs (codes c cs) s =
        evaluate f c s >>= λ (v, s₁). unless_null (λ v. evaluate_all f (push_back vs v) cs) v s₁

    -- The loop of YEMap.
    pub evaluate_map : ℕ → Pairs → CodePairs → State → Outcome
    evaluate_map zero m ps s = no_fuel
    evaluate_map (suc f) m no_pairs s = done (map m) s
    evaluate_map (suc f) m (pairs k c ps) s = do
      (key, s₁) ← evaluate f k s
      key_or_null (is_constant k)
          (λ key t. evaluate f c t >>= λ (v, t₁).
            add_pair mc.doubles key v m t₁ λ n. evaluate_map f n ps t₁)
          key s₁

    pub execute : ℕ → Statement → State → Outcome
    execute zero x s = no_fuel
    execute (suc f) declaration s = done null s
    execute (suc f) break_statement s = done break_value s
    execute (suc f) continue_statement s = done void s
    execute (suc f) return_nothing s = done return_value s
    execute (suc f) (return c) s = evaluate f c s >>= λ (v, s₁). done (return_of v) s₁
    execute (suc f) (expression c) s = evaluate f c s >>= λ (v, s₁). done null s₁
    execute (suc f) (block_statement b) s = evaluate_block f b s
    execute (suc f) (assign n c) s = evaluate f c s >>= λ (v, s₁). done null (set_value n v s₁)
    execute (suc f) (bracket_assign n arg c) s = do
      (is, s₁) ← evaluate f arg s
      (v, s₂) ← evaluate f c s₁
      assign_bracket mc.doubles n is v s₂
    execute (suc f) (if_statement c a b) s =
        evaluate f c s >>= λ (v, s₁). branch (run_body f a) (run_body f b) v s₁
    execute (suc f) (while_loop c b) s = evaluate f c s >>= λ (v, s₁).
        while_test
          (λ t. run_body f b t >>= λ (w, t₁). after_while (execute f (while_loop c b)) w t₁) v s₁
    execute (suc f) (repeat_loop b c) s = run_body f b s >>= λ (w, s₁).
        after_body
          (λ t. evaluate f c t >>= λ (v, t₁). until_test (execute f (repeat_loop b c)) v t₁) w s₁
    execute (suc f) (do_loop b c) s = run_body f b s >>= λ (w, s₁).
        after_body (λ t. evaluate f c t >>= λ (v, t₁). do_test (execute f (do_loop b c)) v t₁) w s₁
    execute (suc f) (switch c cases default b) s = evaluate f c s >>= λ (v, s₁).
        unless_null (λ v t. evaluate_from f (start_of mc.doubles cases default v) b t) v s₁

    -- A null pointer gives null.
    pub run_body : ℕ → Body → State → Outcome
    run_body zero b s = no_fuel
    run_body (suc f) no_body s = done null s
    run_body (suc f) (single x) s = execute f x s
    run_body (suc f) (block_body b) s = evaluate_block f b s

    pub run_statements : ℕ → Statements → State → Outcome
    run_statements zero xs s = no_fuel
    run_statements (suc f) finish s = done null s
    run_statements (suc f) (next x xs) s =
        execute f x s >>= λ (v, s₁). while_null (run_statements f xs) v s₁

    pub evaluate_block : ℕ → Block → State → Outcome
    evaluate_block zero b s = no_fuel
    evaluate_block (suc f) (block_of b is_statement is_module vars xs) s = do
      (v, s₁) ← run_statements f xs (enter is_module b vars s)
      done (block_value is_statement v) (leave is_module b vars (s.running b) s₁)

    -- YBlock::evaluateFrom and the rest of YSSwitch: without a case nothing is evaluated.
    pub evaluate_from : ℕ → Option ℕ → Block → State → Outcome
    evaluate_from zero o b s = no_fuel
    evaluate_from (suc f) none b s = done null s
    evaluate_from (suc f) (some i) (block_of b is_statement is_module vars xs) s = do
      (v, s₁) ← run_statements f (skip i xs) (enter_from b vars s)
      done (catch_break (block_value is_statement v)) (leave is_module b vars (s.running b) s₁)
