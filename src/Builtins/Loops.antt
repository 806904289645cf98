-- ===== src/Builtins/Loops.antt =====
-- libycp/src/YCPBuiltinList.cc: the builtins that evaluate code for each element of a list, which
-- they assign to a symbol entry.
pub mod Laws
use yast_core.Prelude.{ℕ, true, false}
use yast_core.Values.Defs.{
  Value, Values, null, void, boolean, list, break_value, return_value, nil, cons,
}
use yast_core.Values.List.{push_back}
use yast_core.Code.State.{State, set_value}
use yast_core.Code.Outcome.{Outcome, done, fault, ◌>>=◌}

-- `expr` is the evaluation of the code, `s` the number of the entry.
module _ (s : ℕ) (expr : State → Outcome) where
  abbrev found : (State → Outcome) → Value → Value → State → Outcome
  found next v null t = done null t
  found next v void t = next t
  found next v return_value t = next t
  found next v (boolean true) t = done v t
  found next v (boolean false) t = next t
  found next v w t = fault

  unfoldable pub l_find : Values → State → Outcome
  l_find nil t = done null t
  l_find (cons v vs) t = expr (set_value s v t) >>= λ (w, t₁). found (l_find vs) v w t₁

  abbrev kept : (Values → State → Outcome) → Values → Value → Value → State → Outcome
  kept next ret v null t = done null t
  kept next ret v void t = next ret t
  kept next ret v return_value t = next ret t
  kept next ret v break_value t = done (list ret) t
  kept next ret v (boolean true) t = next (push_back ret v) t
  kept next ret v (boolean false) t = next ret t
  kept next ret v w t = fault

  -- `ret` has the elements that are kept so far.
  unfoldable pub l_filter : Values → Values → State → Outcome
  l_filter nil ret t = done (list ret) t
  l_filter (cons v vs) ret t = expr (set_value s v t) >>= λ (w, t₁). kept (l_filter vs) ret v w t₁

  abbrev mapped : (Values → State → Outcome) → Values → Value → State → Outcome
  mapped next ret null t = done null t
  mapped next ret break_value t = done (list ret) t
  mapped next ret w t = next (push_back ret w) t

  unfoldable pub l_maplist : Values → Values → State → Outcome
  l_maplist nil ret t = done (list ret) t
  l_maplist (cons v vs) ret t = expr (set_value s v t) >>= λ (w, t₁). mapped (l_maplist vs) ret w t₁

  abbrev each : (Value → State → Outcome) → Value → State → Outcome
  each next break_value t = done void t
  each next w t = next w t

  -- `ret` is the result of the last round.
  unfoldable pub l_foreach : Values → Value → State → Outcome
  l_foreach nil ret t = done ret t
  l_foreach (cons v vs) ret t = expr (set_value s v t) >>= λ (w, t₁). each (l_foreach vs) w t₁

  abbrev reduced : (Value → State → Outcome) → Value → Value → State → Outcome
  reduced next ret null t = next ret t
  reduced next ret void t = next ret t
  reduced next ret return_value t = next ret t
  reduced next ret break_value t = done ret t
  reduced next ret w t = next w t

  -- The entry `x` has the result so far.
  unfoldable pub l_reduce_helper : ℕ → Values → Value → State → Outcome
  l_reduce_helper x nil ret t = done ret t
  l_reduce_helper x (cons v vs) ret t = expr (set_value s v (set_value x ret t)) >>= λ (w, t₁).
      reduced (l_reduce_helper x vs) ret w t₁
