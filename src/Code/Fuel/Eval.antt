-- ===== src/Code/Fuel/Eval.antt =====
-- More fuel changes no outcome that there is.
use yast_core.Prelude.{ℕ, zero, suc, ◌+◌, ◌≡◌, ◌≢◌, arith, sym, ap, ◌∙◌, Option, none, some}
use yast_core.Values.Defs.{Values, Pairs, nil, end}
use yast_core.Values.List.{push_back}
use yast_core.Code.Syntax.{
  Code, constant, variable, comparison, logic_and, logic_or, unary, binary, triple, propagate,
  is_type, list_of, map_of, term_of, bracket, call, block_code, Codes, no_codes, codes, CodePairs,
  no_pairs, pairs, Statement, return, expression, block_statement, assign, bracket_assign,
  if_statement, while_loop, repeat_loop, do_loop, switch, Body, no_body, single, block_body,
  Statements, finish, next, Block, block_of,
}
use yast_core.Code.State.{State}
use yast_core.Code.Outcome.{Outcome, no_fuel}
use yast_core.Code.Eval.{
  Machine, skip, evaluate, evaluate_list, evaluate_all, evaluate_map, execute, run_body,
  run_statements, evaluate_block, evaluate_from,
}
use yast_core.Code.Steps.{start_of, is_constant, enter, enter_from}
use yast_core.Code.Fuel.{Extends, Extends-refl, Extends-eq, Extends-bind}
use yast_core.Code.Fuel.Steps.{
  unless_null-More, branch-More, choose-More, while_test-More, after_while-More, after_body-More,
  until_test-More, do_test-More, while_null-More, or_else-More, and_also-More, checked-More,
  key_or_null-More, add_pair-More, structure-More, access-More, call_function-More,
}

Extends-no_fuel : (o : Outcome) → Extends no_fuel o
unfolding Extends
Extends-no_fuel o = tt

module _ (mc : Machine) where
  mutual
    unfolding evaluate

    evaluate-More :
        (f : ℕ) (c : Code) (s : State) → Extends (evaluate mc f c s) (evaluate mc (suc f) c s)
    evaluate-More zero c s = Extends-no_fuel _
    evaluate-More (suc f) (constant v) s = Extends-refl _
    evaluate-More (suc f) (variable n) s = Extends-refl _
    evaluate-More (suc f) (comparison op l r') s =
        Extends-bind _ _ _ _ (evaluate-More f l s)
          λ vl t. Extends-bind _ _ _ _ (evaluate-More f r' t) λ vr t. Extends-refl _
    evaluate-More (suc f) (logic_and a b) s =
        Extends-bind _ _ _ _ (evaluate-More f a s)
          (and_also-More _ _ λ t. Extends-bind _ _ _ _ (evaluate-More f b t) λ w t. Extends-refl _)
    evaluate-More (suc f) (logic_or a b) s =
        Extends-bind _ _ _ _ (evaluate-More f a s)
          (or_else-More _ _ λ t. Extends-bind _ _ _ _ (evaluate-More f b t) λ w t. Extends-refl _)
    evaluate-More (suc f) (unary u a) s =
        Extends-bind _ _ _ _ (evaluate-More f a s) λ v t. Extends-refl _
    evaluate-More (suc f) (binary u a b) s = Extends-bind _ _ _ _ (evaluate-More f a s) (
        checked-More u.takes_nil _ _ λ v t.
          Extends-bind _ _ _ _ (evaluate-More f b t)
            (checked-More u.takes_nil _ _ λ w t. Extends-refl _))
    evaluate-More (suc f) (triple c a b) s =
        Extends-bind _ _ _ _ (evaluate-More f c s)
          (choose-More _ _ _ _ (evaluate-More f a) (evaluate-More f b))
    evaluate-More (suc f) (propagate ty a) s =
        Extends-bind _ _ _ _ (evaluate-More f a s) λ v t. Extends-refl _
    evaluate-More (suc f) (is_type ty a) s =
        Extends-bind _ _ _ _ (evaluate-More f a s) λ v t. Extends-refl _
    evaluate-More (suc f) (list_of cs) s = list-More f nil cs s
    evaluate-More (suc f) (map_of ps) s = map-More f end ps s
    evaluate-More (suc f) (term_of name cs) s =
        Extends-bind _ _ _ _ (all-More f nil cs s) λ v t. Extends-refl _
    evaluate-More (suc f) (bracket var arg def) s = Extends-bind _ _ _ _ (evaluate-More f var s) (
        structure-More _ _ _ _ (evaluate-More f def) λ v t.
          Extends-bind _ _ _ _ (evaluate-More f arg t)
            (access-More mc.doubles v _ _ (evaluate-More f def)))
    evaluate-More (suc f) (call n cs) s =
        Extends-bind _ _ _ _ (all-More f nil cs s)
          (call_function-More mc.recursion_limit (mc.functions n) _ _ (evaluate-More f))
    evaluate-More (suc f) (block_code b) s = block-More f b s

    list-More :
        (f : ℕ) (vs : Values) (cs : Codes) (s : State)
        → Extends (evaluate_list mc f vs cs s) (evaluate_list mc (suc f) vs cs s)
    list-More zero vs cs s = Extends-no_fuel _
    list-More (suc f) vs no_codes s = Extends-refl _
    list-More (suc f) vs (codes c cs) s =
        Extends-bind _ _ _ _ (evaluate-More f c s) λ v t. list-More f _ cs t

    all-More :
        (f : ℕ) (vs : Values) (cs : Codes) (s : State)
        → Extends (evaluate_all mc f vs cs s) (evaluate_all mc (suc f) vs cs s)
    all-More zero vs cs s = Extends-no_fuel _
    all-More (suc f) vs no_codes s = Extends-refl _
    all-More (suc f) vs (codes c cs) s =
        Extends-bind _ _ _ _ (evaluate-More f c s)
          (unless_null-More _ _ λ v t. all-More f (push_back vs v) cs t)

    map-More :
        (f : ℕ) (m : Pairs) (ps : CodePairs) (s : State)
        → Extends (evaluate_map mc f m ps s) (evaluate_map mc (suc f) m ps s)
    map-More zero m ps s = Extends-no_fuel _
    map-More (suc f) m no_pairs s = Extends-refl _
    map-More (suc f) m (pairs k c ps) s = Extends-bind _ _ _ _ (evaluate-More f k s) (
        key_or_null-More (is_constant k) _ _ λ key t.
          Extends-bind _ _ _ _ (evaluate-More f c t)
            λ v t. add_pair-More mc.doubles key v m t _ _ λ n. map-More f n ps t)

    execute-More :
        (f : ℕ) (x : Statement) (s : State) → Extends (execute mc f x s) (execute mc (suc f) x s)
    execute-More zero x s = Extends-no_fuel _
    execute-More (suc f) (return c) s =
        Extends-bind _ _ _ _ (evaluate-More f c s) λ v t. Extends-refl _
    execute-More (suc f) (expression c) s =
        Extends-bind _ _ _ _ (evaluate-More f c s) λ v t. Extends-refl _
    execute-More (suc f) (block_statement b) s = block-More f b s
    execute-More (suc f) (assign n c) s =
        Extends-bind _ _ _ _ (evaluate-More f c s) λ v t. Extends-refl _
    execute-More (suc f) (bracket_assign n a c) s =
        Extends-bind _ _ _ _ (evaluate-More f a s)
          λ is t. Extends-bind _ _ _ _ (evaluate-More f c t) λ v t. Extends-refl _
    execute-More (suc f) (if_statement c a b) s =
        Extends-bind _ _ _ _ (evaluate-More f c s)
          (branch-More _ _ _ _ (body-More f a) (body-More f b))
    execute-More (suc f) (while_loop c b) s = Extends-bind _ _ _ _ (evaluate-More f c s) (
        while_test-More _ _ λ t.
          Extends-bind _ _ _ _ (body-More f b t)
            (after_while-More _ _ (execute-More f (while_loop c b))))
    execute-More (suc f) (repeat_loop b c) s = Extends-bind _ _ _ _ (body-More f b s) (
        after_body-More _ _ λ t.
          Extends-bind _ _ _ _ (evaluate-More f c t)
            (until_test-More _ _ (execute-More f (repeat_loop b c))))
    execute-More (suc f) (do_loop b c) s = Extends-bind _ _ _ _ (body-More f b s) (
        after_body-More _ _ λ t.
          Extends-bind _ _ _ _ (evaluate-More f c t)
            (do_test-More _ _ (execute-More f (do_loop b c))))
    execute-More (suc f) (switch c cases default b) s =
        Extends-bind _ _ _ _ (evaluate-More f c s)
          (unless_null-More _ _ λ v. from-More f (start_of mc.doubles cases default v) b)
    execute-More (suc f) x s = Extends-refl _

    body-More :
        (f : ℕ) (b : Body) (s : State) → Extends (run_body mc f b s) (run_body mc (suc f) b s)
    body-More zero b s = Extends-no_fuel _
    body-More (suc f) no_body s = Extends-refl _
    body-More (suc f) (single x) s = execute-More f x s
    body-More (suc f) (block_body b) s = block-More f b s

    statements-More :
        (f : ℕ) (xs : Statements) (s : State)
        → Extends (run_statements mc f xs s) (run_statements mc (suc f) xs s)
    statements-More zero xs s = Extends-no_fuel _
    statements-More (suc f) finish s = Extends-refl _
    statements-More (suc f) (next x xs) s =
        Extends-bind _ _ _ _ (execute-More f x s) (while_null-More _ _ (statements-More f xs))

    block-More :
        (f : ℕ) (b : Block) (s : State)
        → Extends (evaluate_block mc f b s) (evaluate_block mc (suc f) b s)
    block-More zero b s = Extends-no_fuel _
    block-More (suc f) (block_of b is_statement is_module vars xs) s =
        Extends-bind _ _ _ _ (statements-More f xs (enter is_module b vars s)) λ v t. Extends-refl _

    from-More :
        (f : ℕ) (o : Option ℕ) (b : Block) (s : State)
        → Extends (evaluate_from mc f o b s) (evaluate_from mc (suc f) o b s)
    from-More zero o b s = Extends-no_fuel _
    from-More (suc f) none b s = Extends-refl _
    from-More (suc f) (some i) (block_of b is_statement is_module vars xs) s =
        Extends-bind _ _ _ _ (statements-More f (skip i xs) (enter_from b vars s))
          λ v t. Extends-refl _

-- Where evaluation ends, in a value or a fault, it ends in the same way with any more fuel.
pub evaluate-add_fuel :
    (mc : Machine) (k f : ℕ) (c : Code) (s : State)
    → evaluate mc f c s ≢ no_fuel
    → evaluate mc (k + f) c s ≡ evaluate mc f c s
evaluate-add_fuel mc zero f c s h = ap (λ m. evaluate mc m c s) (omega arith)
evaluate-add_fuel mc (suc k) f c s h =
    let same = evaluate-add_fuel mc k f c s h in
    let one : suc k + f ≡ suc (k + f) = omega arith in
    ap (λ m. evaluate mc m c s) one
    ∙ Extends-eq _ _ (evaluate-More mc (k + f) c s) (λ e. h (sym same ∙ e))
    ∙ same

pub run_body-add_fuel :
    (mc : Machine) (k f : ℕ) (b : Body) (s : State)
    → run_body mc f b s ≢ no_fuel
    → run_body mc (k + f) b s ≡ run_body mc f b s
run_body-add_fuel mc zero f b s h = ap (λ m. run_body mc m b s) (omega arith)
run_body-add_fuel mc (suc k) f b s h =
    let same = run_body-add_fuel mc k f b s h in
    let one : suc k + f ≡ suc (k + f) = omega arith in
    ap (λ m. run_body mc m b s) one
    ∙ Extends-eq _ _ (body-More mc (k + f) b s) (λ e. h (sym same ∙ e))
    ∙ same
