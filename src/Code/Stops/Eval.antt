-- ===== src/Code/Stops/Eval.antt =====
-- Loop-free code has enough fuel: the recursion limit bounds the calls.
use yast_core.Prelude.{ℕ, zero, suc, ◌+◌, ◌≡◌, ◌≤◌, ap, subst, ◌∙◌, Option, none, some, arith}
use yast_core.Values.Defs.{Values, Pairs, nil, end}
use yast_core.Values.List.{push_back}
use yast_core.Code.Syntax.{
  Code, constant, variable, comparison, logic_and, logic_or, unary, binary, triple, propagate,
  is_type, list_of, map_of, term_of, bracket, call, block_code, Codes, no_codes, codes, CodePairs,
  no_pairs, pairs, Statement, return, expression, block_statement, assign, bracket_assign,
  if_statement, while_loop, repeat_loop, do_loop, switch, Body, no_body, single, block_body,
  Statements, finish, next, Block, block_of,
}
use yast_core.Code.State.{State, void_if_null}
use yast_core.Code.Eval.{
  Machine, skip, evaluate, evaluate_list, evaluate_all, evaluate_map, execute, run_body,
  run_statements, evaluate_block, evaluate_from,
}
use yast_core.Code.Steps.{start_of, is_constant, enter, enter_from}
use yast_core.Code.Steps.Rules.{
  ended_rule, unless_null_rule, branch_rule, choose_rule, while_null_rule, truth_rule, or_else_rule,
  and_also_rule, checked_rule, key_or_null_rule, add_pair_rule, structure_rule, access_rule,
  assign_bracket_rule,
}
use yast_core.Code.LoopFree.{
  IsLoopFree, AreLoopFree, ArePairsLoopFree, IsLoopFreeStatement, IsLoopFreeBody,
  AreLoopFreeStatements, IsLoopFreeBlock, code_size, codes_size, pairs_size, statement_size,
  body_size, statements_size, block_size,
}
use yast_core.Code.LoopFree.Size.{
  code_size-pos, codes_size-pos, pairs_size-pos, statement_size-pos, body_size-pos,
  statements_size-pos, block_size-pos, skip-size, skip-AreLoopFreeStatements,
}
use yast_core.Code.Stops.{Stops, Within, Stops-rules, Stops-bind, Stops-left}
use yast_core.Code.Stops.Calls.{frames-enter, frames-enter_from, frames-leave, call_function-Stops}

abbrev IsLoopFreeBelow : ℕ → Option Code → Type 0
IsLoopFreeBelow bound none = Unit
IsLoopFreeBelow bound (some c) = IsLoopFree c × (code_size c ≤ bound)

-- No definition of a function has a loop or more than `bound` nodes.
unfoldable pub AreLoopFreeFunctions : ℕ → Machine → Type 0
unfolding IsLoopFree code_size
AreLoopFreeFunctions bound mc = (n : ℕ) → IsLoopFreeBelow bound ((mc.functions n).definition)

-- The fuel for `d` calls that are open at once.
unfoldable pub room : ℕ → ℕ → ℕ
room bound zero = 0
room bound (suc d) = bound + room bound d

definition-IsLoopFree :
    (bound : ℕ) (o : Option Code) (c : Code)
    → IsLoopFreeBelow bound o
    → o ≡ some c
    → IsLoopFree c × (code_size c ≤ bound)
definition-IsLoopFree bound o c h e = subst (IsLoopFreeBelow bound) e h

within_room :
    (d d' bound size f : ℕ)
    → d ≡ suc d'
    → size ≤ bound
    → room bound d ≤ f
    → size + room bound d' ≤ f
unfolding room
within_room d d' bound size f e le h = omega (arith, subst (λ m. room bound m ≤ f) e h)

module _ (mc : Machine) (bound : ℕ) (free : AreLoopFreeFunctions bound mc) where
  mutual
    unfolding evaluate IsLoopFree code_size room AreLoopFreeFunctions

    pub evaluate-Stops :
        (d f : ℕ) (c : Code)
        → IsLoopFree c
        → code_size c + room bound d ≤ f
        → (s : State) → Within mc.recursion_limit d s
        → Stops s (evaluate mc f c s)
    evaluate-Stops d zero c h le s r = absurd (omega (arith, code_size-pos c))
    evaluate-Stops d (suc f) (constant v) h le s r =
        (Stops-rules mc.recursion_limit d s r).at_done v
    evaluate-Stops d (suc f) (variable n) h le s r =
        (Stops-rules mc.recursion_limit d s r).at_done (void_if_null (s.value_of n))
    evaluate-Stops d (suc f) (comparison op l r') h le s r =
        Stops-bind mc.recursion_limit d s _ _ r (evaluate-Stops d f l (h.0) (omega arith) s r)
          λ vl t r.
            Stops-bind mc.recursion_limit d t _ _ r (evaluate-Stops d f r' (h.1) (omega arith) t r)
              λ vr. ended_rule (Stops-rules mc.recursion_limit d) _
    evaluate-Stops d (suc f) (logic_and a b) h le s r =
        Stops-bind mc.recursion_limit d s _ _ r (evaluate-Stops d f a (h.0) (omega arith) s r) (
          and_also_rule (Stops-rules mc.recursion_limit d) _ λ t r.
            Stops-bind mc.recursion_limit d t _ _ r (evaluate-Stops d f b (h.1) (omega arith) t r)
              (truth_rule (Stops-rules mc.recursion_limit d)))
    evaluate-Stops d (suc f) (logic_or a b) h le s r =
        Stops-bind mc.recursion_limit d s _ _ r (evaluate-Stops d f a (h.0) (omega arith) s r) (
          or_else_rule (Stops-rules mc.recursion_limit d) _ λ t r.
            Stops-bind mc.recursion_limit d t _ _ r (evaluate-Stops d f b (h.1) (omega arith) t r)
              (truth_rule (Stops-rules mc.recursion_limit d)))
    evaluate-Stops d (suc f) (unary u a) h le s r =
        Stops-bind mc.recursion_limit d s _ _ r (evaluate-Stops d f a h (omega arith) s r)
          λ v t r. (Stops-rules mc.recursion_limit d t r).at_done _
    evaluate-Stops d (suc f) (binary u a b) h le s r =
        Stops-bind mc.recursion_limit d s _ _ r (evaluate-Stops d f a (h.0) (omega arith) s r) (
          checked_rule (Stops-rules mc.recursion_limit d) u.takes_nil _ λ v t r.
            Stops-bind mc.recursion_limit d t _ _ r (evaluate-Stops d f b (h.1) (omega arith) t r) (
              checked_rule (Stops-rules mc.recursion_limit d) u.takes_nil _
                λ w t r. (Stops-rules mc.recursion_limit d t r).at_done _))
    evaluate-Stops d (suc f) (triple c a b) h le s r =
        Stops-bind mc.recursion_limit d s _ _ r (evaluate-Stops d f c (h.0) (omega arith) s r) (
          choose_rule (Stops-rules mc.recursion_limit d) _ _
            (evaluate-Stops d f a (h.1) (omega arith)) (evaluate-Stops d f b (h.2) (omega arith)))
    evaluate-Stops d (suc f) (propagate ty a) h le s r =
        Stops-bind mc.recursion_limit d s _ _ r (evaluate-Stops d f a h (omega arith) s r)
          λ v. ended_rule (Stops-rules mc.recursion_limit d) _
    evaluate-Stops d (suc f) (is_type ty a) h le s r =
        Stops-bind mc.recursion_limit d s _ _ r (evaluate-Stops d f a h (omega arith) s r)
          λ v. ended_rule (Stops-rules mc.recursion_limit d) _
    evaluate-Stops d (suc f) (list_of cs) h le s r = list-Stops d f nil cs h (omega arith) s r
    evaluate-Stops d (suc f) (map_of ps) h le s r = map-Stops d f end ps h (omega arith) s r
    evaluate-Stops d (suc f) (term_of name cs) h le s r =
        Stops-bind mc.recursion_limit d s _ _ r (all-Stops d f nil cs h (omega arith) s r)
          λ v t r. (Stops-rules mc.recursion_limit d t r).at_done _
    evaluate-Stops d (suc f) (bracket var arg def) h le s r =
        Stops-bind mc.recursion_limit d s _ _ r (evaluate-Stops d f var (h.0) (omega arith) s r) (
          structure_rule (Stops-rules mc.recursion_limit d) _ _
            (evaluate-Stops d f def (h.2) (omega arith))
            λ v t r.
              Stops-bind mc.recursion_limit d t _ _ r
                (evaluate-Stops d f arg (h.1) (omega arith) t r)
                (access_rule (Stops-rules mc.recursion_limit d) mc.doubles v _
                  (evaluate-Stops d f def (h.2) (omega arith))))
    evaluate-Stops d (suc f) (call n cs) h le s r =
        Stops-bind mc.recursion_limit d s _ _ r (all-Stops d f nil cs h (omega arith) s r) λ v t r.
          call_function-Stops mc.recursion_limit d (mc.functions n) _ v t r λ d' e c ec.
            let (hc, lc) =
              definition-IsLoopFree bound ((mc.functions n).definition) c (free n) ec in
            evaluate-Stops d' f c hc (within_room d d' bound (code_size c) f e lc (omega arith))
    evaluate-Stops d (suc f) (block_code b) h le s r = block-Stops d f b h (omega arith) s r

    list-Stops :
        (d f : ℕ) (vs : Values) (cs : Codes)
        → AreLoopFree cs
        → codes_size cs + room bound d ≤ f
        → (s : State) → Within mc.recursion_limit d s
        → Stops s (evaluate_list mc f vs cs s)
    list-Stops d zero vs cs h le s r = absurd (omega (arith, codes_size-pos cs))
    list-Stops d (suc f) vs no_codes h le s r = (Stops-rules mc.recursion_limit d s r).at_done _
    list-Stops d (suc f) vs (codes c cs) h le s r =
        Stops-bind mc.recursion_limit d s _ _ r (evaluate-Stops d f c (h.0) (omega arith) s r)
          λ v t r. list-Stops d f _ cs (h.1) (omega arith) t r

    all-Stops :
        (d f : ℕ) (vs : Values) (cs : Codes)
        → AreLoopFree cs
        → codes_size cs + room bound d ≤ f
        → (s : State) → Within mc.recursion_limit d s
        → Stops s (evaluate_all mc f vs cs s)
    all-Stops d zero vs cs h le s r = absurd (omega (arith, codes_size-pos cs))
    all-Stops d (suc f) vs no_codes h le s r = (Stops-rules mc.recursion_limit d s r).at_done _
    all-Stops d (suc f) vs (codes c cs) h le s r =
        Stops-bind mc.recursion_limit d s _ _ r (evaluate-Stops d f c (h.0) (omega arith) s r) (
          unless_null_rule (Stops-rules mc.recursion_limit d) _
            λ v t r. all-Stops d f (push_back vs v) cs (h.1) (omega arith) t r)

    map-Stops :
        (d f : ℕ) (m : Pairs) (ps : CodePairs)
        → ArePairsLoopFree ps
        → pairs_size ps + room bound d ≤ f
        → (s : State) → Within mc.recursion_limit d s
        → Stops s (evaluate_map mc f m ps s)
    map-Stops d zero m ps h le s r = absurd (omega (arith, pairs_size-pos ps))
    map-Stops d (suc f) m no_pairs h le s r = (Stops-rules mc.recursion_limit d s r).at_done _
    map-Stops d (suc f) m (pairs k c ps) h le s r =
        Stops-bind mc.recursion_limit d s _ _ r (evaluate-Stops d f k (h.0) (omega arith) s r) (
          key_or_null_rule (Stops-rules mc.recursion_limit d) (is_constant k) _ λ key t r.
            Stops-bind mc.recursion_limit d t _ _ r (evaluate-Stops d f c (h.1) (omega arith) t r)
              λ v t r.
                add_pair_rule (Stops-rules mc.recursion_limit d) mc.doubles key v m t _ r
                  λ n. map-Stops d f n ps (h.2) (omega arith) t r)

    execute-Stops :
        (d f : ℕ) (x : Statement)
        → IsLoopFreeStatement x
        → statement_size x + room bound d ≤ f
        → (s : State) → Within mc.recursion_limit d s
        → Stops s (execute mc f x s)
    execute-Stops d zero x h le s r = absurd (omega (arith, statement_size-pos x))
    execute-Stops d (suc f) (return c) h le s r =
        Stops-bind mc.recursion_limit d s _ _ r (evaluate-Stops d f c h (omega arith) s r)
          λ v t r. (Stops-rules mc.recursion_limit d t r).at_done _
    execute-Stops d (suc f) (expression c) h le s r =
        Stops-bind mc.recursion_limit d s _ _ r (evaluate-Stops d f c h (omega arith) s r)
          λ v t r. (Stops-rules mc.recursion_limit d t r).at_done _
    execute-Stops d (suc f) (block_statement b) h le s r = block-Stops d f b h (omega arith) s r
    execute-Stops d (suc f) (assign n c) h le s r =
        Stops-bind mc.recursion_limit d s _ _ r (evaluate-Stops d f c h (omega arith) s r)
          λ v t r. (Stops-rules mc.recursion_limit d t r).at_set_value n v
    execute-Stops d (suc f) (bracket_assign n a c) h le s r =
        Stops-bind mc.recursion_limit d s _ _ r (evaluate-Stops d f a (h.0) (omega arith) s r)
          λ is t r.
            Stops-bind mc.recursion_limit d t _ _ r (evaluate-Stops d f c (h.1) (omega arith) t r)
              (assign_bracket_rule (Stops-rules mc.recursion_limit d) mc.doubles n is)
    execute-Stops d (suc f) (if_statement c a b) h le s r =
        Stops-bind mc.recursion_limit d s _ _ r (evaluate-Stops d f c (h.0) (omega arith) s r) (
          branch_rule (Stops-rules mc.recursion_limit d) _ _ (body-Stops d f a (h.1) (omega arith))
            (body-Stops d f b (h.2) (omega arith)))
    execute-Stops d (suc f) (while_loop c b) h le s r = absurd h
    execute-Stops d (suc f) (repeat_loop b c) h le s r = absurd h
    execute-Stops d (suc f) (do_loop b c) h le s r = absurd h
    execute-Stops d (suc f) (switch c cases default b) h le s r =
        Stops-bind mc.recursion_limit d s _ _ r (evaluate-Stops d f c (h.0) (omega arith) s r) (
          unless_null_rule (Stops-rules mc.recursion_limit d) _
            λ v. from-Stops d f (start_of mc.doubles cases default v) b (h.1) (omega arith))
    execute-Stops d (suc f) x h le s r = (Stops-rules mc.recursion_limit d s r).at_done _

    body-Stops :
        (d f : ℕ) (b : Body)
        → IsLoopFreeBody b
        → body_size b + room bound d ≤ f
        → (s : State) → Within mc.recursion_limit d s
        → Stops s (run_body mc f b s)
    body-Stops d zero b h le s r = absurd (omega (arith, body_size-pos b))
    body-Stops d (suc f) no_body h le s r = (Stops-rules mc.recursion_limit d s r).at_done _
    body-Stops d (suc f) (single x) h le s r = execute-Stops d f x h (omega arith) s r
    body-Stops d (suc f) (block_body b) h le s r = block-Stops d f b h (omega arith) s r

    statements-Stops :
        (d f : ℕ) (xs : Statements)
        → AreLoopFreeStatements xs
        → statements_size xs + room bound d ≤ f
        → (s : State) → Within mc.recursion_limit d s
        → Stops s (run_statements mc f xs s)
    statements-Stops d zero xs h le s r = absurd (omega (arith, statements_size-pos xs))
    statements-Stops d (suc f) finish h le s r = (Stops-rules mc.recursion_limit d s r).at_done _
    statements-Stops d (suc f) (next x xs) h le s r =
        Stops-bind mc.recursion_limit d s _ _ r (execute-Stops d f x (h.0) (omega arith) s r) (
          while_null_rule (Stops-rules mc.recursion_limit d) _
            (statements-Stops d f xs (h.1) (omega arith)))

    block-Stops :
        (d f : ℕ) (b : Block)
        → IsLoopFreeBlock b
        → block_size b + room bound d ≤ f
        → (s : State) → Within mc.recursion_limit d s
        → Stops s (evaluate_block mc f b s)
    block-Stops d zero b h le s r = absurd (omega (arith, block_size-pos b))
    block-Stops d (suc f) (block_of b is_statement is_module vars xs) h le s r =
        Stops-left s _ _ _ _ (frames-enter is_module b vars s)
          (frames-leave is_module b vars (s.running b))
          (statements-Stops d f xs h (omega arith) (enter is_module b vars s)
            (ap (λ m. m + d) (frames-enter is_module b vars s) ∙ r))

    from-Stops :
        (d f : ℕ) (o : Option ℕ) (b : Block)
        → IsLoopFreeBlock b
        → block_size b + room bound d ≤ f
        → (s : State) → Within mc.recursion_limit d s
        → Stops s (evaluate_from mc f o b s)
    from-Stops d zero o b h le s r = absurd (omega (arith, block_size-pos b))
    from-Stops d (suc f) none b h le s r = (Stops-rules mc.recursion_limit d s r).at_done _
    from-Stops d (suc f) (some i) (block_of b is_statement is_module vars xs) h le s r =
        Stops-left s _ _ _ _ (frames-enter_from b vars s)
          (frames-leave is_module b vars (s.running b))
          (statements-Stops d f (skip i xs) (skip-AreLoopFreeStatements i xs h)
            (omega (arith, skip-size i xs)) (enter_from b vars s)
            (ap (λ m. m + d) (frames-enter_from b vars s) ∙ r))
