-- ===== src/Code/Keeps/Eval.antt =====
-- Evaluation of sound code keeps the state.
use yast_core.Prelude.{ℕ, zero, suc, ◌≡◌, refl, sym, subst, Option, none, some}
use yast_core.Values.Defs.{Values, Pairs, nil, end}
use yast_core.Values.List.{push_back}
use yast_core.Code.Syntax.{
  Code, constant, variable, comparison, logic_and, logic_or, unary, binary, triple, propagate,
  is_type, list_of, map_of, term_of, bracket, call, block_code, Codes, no_codes, codes, CodePairs,
  no_pairs, pairs, Statement, return, expression, block_statement, assign, bracket_assign,
  if_statement, while_loop, repeat_loop, do_loop, switch, Body, no_body, single, block_body,
  Statements, finish, next, Block, block_of,
}
use yast_core.Code.State.{State, void_if_null}
use yast_core.Code.Outcome.{no_fuel}
use yast_core.Code.Eval.{
  Machine, skip, evaluate, evaluate_list, evaluate_all, evaluate_map, execute, run_body,
  run_statements, evaluate_block, evaluate_from,
}
use yast_core.Code.Steps.{start_of, is_constant, enter, enter_from, leave}
use yast_core.Code.WellFormed.{
  IsSound, AreSound, ArePairsSound, IsSoundStatement, IsSoundBody, AreSoundStatements, IsSoundBlock,
  IsNoModule, IsSoundMachine, IsSoundDefinition,
}
use yast_core.Code.Keeps.{Same, Keeps, Keeps-rules, Keeps-bind, Keeps-left}
use yast_core.Code.Steps.Rules.{
  ended_rule, unless_null_rule, branch_rule, choose_rule, while_test_rule, after_while_rule,
  after_body_rule, until_test_rule, do_test_rule, while_null_rule, truth_rule, or_else_rule,
  and_also_rule, checked_rule, key_or_null_rule, add_pair_rule, structure_rule, access_rule,
  assign_bracket_rule,
}
use yast_core.Code.Keeps.Calls.{leave-Same, leave-Same_from, call_function-Keeps}

definition-cases : (o : Option Code) → IsSoundDefinition o → (c : Code) × (o ≡ some c) × IsSound c
definition-cases none h = absurd h
definition-cases (some c) h = (c, refl, h)

skip_sound : (i : ℕ) (xs : Statements) → AreSoundStatements xs → AreSoundStatements (skip i xs)
unfolding skip AreSoundStatements
skip_sound zero xs h = h
skip_sound (suc i) finish h = h
skip_sound (suc i) (next x xs) h = skip_sound i xs (h.1)

Keeps-no_fuel : (s : State) → Keeps s no_fuel
unfolding Keeps
Keeps-no_fuel s = tt

module _ (mc : Machine) (ok : IsSoundMachine mc) where
  mutual
    unfolding evaluate IsSound IsSoundMachine

    pub evaluate-Keeps :
        (f : ℕ) (c : Code) → IsSound c → (s : State) → Unit {0} → Keeps s (evaluate mc f c s)
    evaluate-Keeps zero c h s r = Keeps-no_fuel s
    evaluate-Keeps (suc f) (constant v) h s r = (Keeps-rules s r).at_done v
    evaluate-Keeps (suc f) (variable n) h s r =
        (Keeps-rules s r).at_done (void_if_null (s.value_of n))
    evaluate-Keeps (suc f) (comparison op l r') h s r =
        Keeps-bind s _ _ (evaluate-Keeps f l (h.0) s r)
          λ vl t r. Keeps-bind t _ _ (evaluate-Keeps f r' (h.1) t r) λ vr. ended_rule Keeps-rules _
    evaluate-Keeps (suc f) (logic_and a b) h s r = Keeps-bind s _ _ (evaluate-Keeps f a (h.0) s r) (
        and_also_rule Keeps-rules _
          λ t r. Keeps-bind t _ _ (evaluate-Keeps f b (h.1) t r) (truth_rule Keeps-rules))
    evaluate-Keeps (suc f) (logic_or a b) h s r = Keeps-bind s _ _ (evaluate-Keeps f a (h.0) s r) (
        or_else_rule Keeps-rules _
          λ t r. Keeps-bind t _ _ (evaluate-Keeps f b (h.1) t r) (truth_rule Keeps-rules))
    evaluate-Keeps (suc f) (unary u a) h s r =
        Keeps-bind s _ _ (evaluate-Keeps f a h s r) λ v t r. (Keeps-rules t r).at_done _
    evaluate-Keeps (suc f) (binary u a b) h s r = Keeps-bind s _ _ (evaluate-Keeps f a (h.0) s r) (
        checked_rule Keeps-rules u.takes_nil _ λ v t r.
          Keeps-bind t _ _ (evaluate-Keeps f b (h.1) t r)
            (checked_rule Keeps-rules u.takes_nil _ λ w t r. (Keeps-rules t r).at_done _))
    evaluate-Keeps (suc f) (triple c a b) h s r =
        Keeps-bind s _ _ (evaluate-Keeps f c (h.0) s r)
          (choose_rule Keeps-rules _ _ (evaluate-Keeps f a (h.1)) (evaluate-Keeps f b (h.2)))
    evaluate-Keeps (suc f) (propagate ty a) h s r =
        Keeps-bind s _ _ (evaluate-Keeps f a h s r) λ v. ended_rule Keeps-rules _
    evaluate-Keeps (suc f) (is_type ty a) h s r =
        Keeps-bind s _ _ (evaluate-Keeps f a h s r) λ v. ended_rule Keeps-rules _
    evaluate-Keeps (suc f) (list_of cs) h s r = list-Keeps f nil cs h s r
    evaluate-Keeps (suc f) (map_of ps) h s r = map-Keeps f end ps h s r
    evaluate-Keeps (suc f) (term_of name cs) h s r =
        Keeps-bind s _ _ (all-Keeps f nil cs h s r) λ v t r. (Keeps-rules t r).at_done _
    evaluate-Keeps (suc f) (bracket var arg def) h s r =
        Keeps-bind s _ _ (evaluate-Keeps f var (h.0) s r) (
          structure_rule Keeps-rules _ _ (evaluate-Keeps f def (h.2)) λ v t r.
            Keeps-bind t _ _ (evaluate-Keeps f arg (h.1) t r)
              (access_rule Keeps-rules mc.doubles v _ (evaluate-Keeps f def (h.2))))
    evaluate-Keeps (suc f) (call n cs) h s r = Keeps-bind s _ _ (all-Keeps f nil cs h s r) λ v t r.
        let (c, e, hc) = definition-cases ((mc.functions n).definition) (ok n) in
        call_function-Keeps mc.recursion_limit (mc.functions n) c _ v t e
          λ u. evaluate-Keeps f c hc u tt
    evaluate-Keeps (suc f) (block_code b) h s r = block-Keeps f b h s r

    list-Keeps :
        (f : ℕ) (vs : Values) (cs : Codes)
        → AreSound cs
        → (s : State) → Unit {0}
        → Keeps s (evaluate_list mc f vs cs s)
    list-Keeps zero vs cs h s r = Keeps-no_fuel s
    list-Keeps (suc f) vs no_codes h s r = (Keeps-rules s r).at_done _
    list-Keeps (suc f) vs (codes c cs) h s r =
        Keeps-bind s _ _ (evaluate-Keeps f c (h.0) s r) λ v t r. list-Keeps f _ cs (h.1) t r

    all-Keeps :
        (f : ℕ) (vs : Values) (cs : Codes)
        → AreSound cs
        → (s : State) → Unit {0}
        → Keeps s (evaluate_all mc f vs cs s)
    all-Keeps zero vs cs h s r = Keeps-no_fuel s
    all-Keeps (suc f) vs no_codes h s r = (Keeps-rules s r).at_done _
    all-Keeps (suc f) vs (codes c cs) h s r =
        Keeps-bind s _ _ (evaluate-Keeps f c (h.0) s r)
          (unless_null_rule Keeps-rules _ λ v t r. all-Keeps f (push_back vs v) cs (h.1) t r)

    map-Keeps :
        (f : ℕ) (m : Pairs) (ps : CodePairs)
        → ArePairsSound ps
        → (s : State) → Unit {0}
        → Keeps s (evaluate_map mc f m ps s)
    map-Keeps zero m ps h s r = Keeps-no_fuel s
    map-Keeps (suc f) m no_pairs h s r = (Keeps-rules s r).at_done _
    map-Keeps (suc f) m (pairs k c ps) h s r = Keeps-bind s _ _ (evaluate-Keeps f k (h.0) s r) (
        key_or_null_rule Keeps-rules (is_constant k) _ λ key t r.
          Keeps-bind t _ _ (evaluate-Keeps f c (h.1) t r) λ v t r.
            add_pair_rule Keeps-rules mc.doubles key v m t _ r λ n. map-Keeps f n ps (h.2) t r)

    execute-Keeps :
        (f : ℕ) (x : Statement)
        → IsSoundStatement x
        → (s : State) → Unit {0}
        → Keeps s (execute mc f x s)
    execute-Keeps zero x h s r = Keeps-no_fuel s
    execute-Keeps (suc f) (return c) h s r =
        Keeps-bind s _ _ (evaluate-Keeps f c h s r) λ v t r. (Keeps-rules t r).at_done _
    execute-Keeps (suc f) (expression c) h s r =
        Keeps-bind s _ _ (evaluate-Keeps f c h s r) λ v t r. (Keeps-rules t r).at_done _
    execute-Keeps (suc f) (block_statement b) h s r = block-Keeps f b h s r
    execute-Keeps (suc f) (assign n c) h s r =
        Keeps-bind s _ _ (evaluate-Keeps f c h s r) λ v t r. (Keeps-rules t r).at_set_value n v
    execute-Keeps (suc f) (bracket_assign n a c) h s r =
        Keeps-bind s _ _ (evaluate-Keeps f a (h.0) s r) λ is t r.
          Keeps-bind t _ _ (evaluate-Keeps f c (h.1) t r)
            (assign_bracket_rule Keeps-rules mc.doubles n is)
    execute-Keeps (suc f) (if_statement c a b) h s r =
        Keeps-bind s _ _ (evaluate-Keeps f c (h.0) s r)
          (branch_rule Keeps-rules _ _ (body-Keeps f a (h.1)) (body-Keeps f b (h.2)))
    execute-Keeps (suc f) (while_loop c b) h s r = Keeps-bind s _ _ (evaluate-Keeps f c (h.0) s r) (
        while_test_rule Keeps-rules _ λ t r.
          Keeps-bind t _ _ (body-Keeps f b (h.1) t r)
            (after_while_rule Keeps-rules _ (execute-Keeps f (while_loop c b) h)))
    execute-Keeps (suc f) (repeat_loop b c) h s r = Keeps-bind s _ _ (body-Keeps f b (h.0) s r) (
        after_body_rule Keeps-rules _ λ t r.
          Keeps-bind t _ _ (evaluate-Keeps f c (h.1) t r)
            (until_test_rule Keeps-rules _ (execute-Keeps f (repeat_loop b c) h)))
    execute-Keeps (suc f) (do_loop b c) h s r = Keeps-bind s _ _ (body-Keeps f b (h.0) s r) (
        after_body_rule Keeps-rules _ λ t r.
          Keeps-bind t _ _ (evaluate-Keeps f c (h.1) t r)
            (do_test_rule Keeps-rules _ (execute-Keeps f (do_loop b c) h)))
    execute-Keeps (suc f) (switch c cases default b) h s r =
        Keeps-bind s _ _ (evaluate-Keeps f c (h.0) s r) (
          unless_null_rule Keeps-rules _
            λ v. from-Keeps f (start_of mc.doubles cases default v) b (h.1) (h.2))
    execute-Keeps (suc f) x h s r = (Keeps-rules s r).at_done _

    body-Keeps :
        (f : ℕ) (b : Body) → IsSoundBody b → (s : State) → Unit {0} → Keeps s (run_body mc f b s)
    body-Keeps zero b h s r = Keeps-no_fuel s
    body-Keeps (suc f) no_body h s r = (Keeps-rules s r).at_done _
    body-Keeps (suc f) (single x) h s r = execute-Keeps f x h s r
    body-Keeps (suc f) (block_body b) h s r = block-Keeps f b h s r

    pub statements-Keeps :
        (f : ℕ) (xs : Statements)
        → AreSoundStatements xs
        → (s : State) → Unit {0}
        → Keeps s (run_statements mc f xs s)
    statements-Keeps zero xs h s r = Keeps-no_fuel s
    statements-Keeps (suc f) finish h s r = (Keeps-rules s r).at_done _
    statements-Keeps (suc f) (next x xs) h s r =
        Keeps-bind s _ _ (execute-Keeps f x (h.0) s r)
          (while_null_rule Keeps-rules _ (statements-Keeps f xs (h.1)))

    block-Keeps :
        (f : ℕ) (b : Block)
        → IsSoundBlock b
        → (s : State) → Unit {0}
        → Keeps s (evaluate_block mc f b s)
    block-Keeps zero b h s r = Keeps-no_fuel s
    block-Keeps (suc f) (block_of b is_statement is_module vars xs) h s r =
        Keeps-left s _ _ _ _ (statements-Keeps f xs h (enter is_module b vars s) tt)
          λ t. leave-Same is_module b vars s t

    from-Keeps :
        (f : ℕ) (o : Option ℕ) (b : Block)
        → IsSoundBlock b
        → IsNoModule b
        → (s : State) → Unit {0}
        → Keeps s (evaluate_from mc f o b s)
    from-Keeps zero o b h n s r = Keeps-no_fuel s
    from-Keeps (suc f) none b h n s r = (Keeps-rules s r).at_done _
    from-Keeps (suc f) (some i) (block_of b is_statement is_module vars xs) h n s r =
        Keeps-left s _ _ _ _
          (statements-Keeps f (skip i xs) (skip_sound i xs h) (enter_from b vars s) tt)
          λ t p.
            subst (λ m. Same s (leave m b vars (s.running b) t)) (sym n)
              (leave-Same_from b vars s t p)
