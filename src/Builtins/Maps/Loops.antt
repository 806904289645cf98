-- ===== src/Builtins/Maps/Loops.antt =====
-- libycp/src/YCPBuiltinMap.cc: the builtins that evaluate code for each entry of a map, whose key
-- and value they assign to two symbol entries.
use yast_core.Prelude.{ℕ, true, false, none, some}
use yast_core.Values.Defs.{
  Value, Values, Pairs, Doubles, null, void, boolean, list, map, break_value, return_value, end,
  entry,
}
use yast_core.Values.List.{push_back}
use yast_core.Values.Map.{add}
use yast_core.Code.State.{State, set_value}
use yast_core.Code.Outcome.{Outcome, done, fault, ◌>>=◌}

-- `expr` is the evaluation of the code, `k` and `v` the numbers of the entries.
module _ (doubles : Doubles) (k v : ℕ) (expr : State → Outcome) where
  abbrev added : (Pairs → State → Outcome) → Value → Value → Pairs → State → Outcome
  added next key value ret t = elim (add doubles key value ret) [ none ↦ fault | some n ↦ next n t ]

  abbrev kept : (Pairs → State → Outcome) → Value → Value → Pairs → Value → State → Outcome
  kept next key value ret null t = done null t
  kept next key value ret void t = next ret t
  kept next key value ret return_value t = next ret t
  kept next key value ret break_value t = done (map ret) t
  kept next key value ret (boolean true) t = added next key value ret t
  kept next key value ret (boolean false) t = next ret t
  kept next key value ret w t = fault

  unfoldable pub m_filter : Pairs → Pairs → State → Outcome
  m_filter end ret t = done (map ret) t
  m_filter (entry key value m) ret t = expr (set_value v value (set_value k key t)) >>= λ (w, t₁).
      kept (m_filter m) key value ret w t₁

  -- The first entry of the map that the code gives is added; an empty one is a fault.
  abbrev first_added : (Pairs → State → Outcome) → Pairs → Value → State → Outcome
  first_added next ret null t = done null t
  first_added next ret break_value t = done (map ret) t
  first_added next ret (map (entry key value m)) t = added next key value ret t
  first_added next ret w t = fault

  unfoldable pub m_mapmap : Pairs → Pairs → State → Outcome
  m_mapmap end ret t = done (map ret) t
  m_mapmap (entry key value m) ret t =
      expr (set_value v value (set_value k key t)) >>= λ (w, t₁). first_added (m_mapmap m) ret w t₁

  abbrev mapped : (Values → State → Outcome) → Values → Value → State → Outcome
  mapped next ret null t = done null t
  mapped next ret break_value t = done (list ret) t
  mapped next ret w t = next (push_back ret w) t

  unfoldable pub m_maplist : Pairs → Values → State → Outcome
  m_maplist end ret t = done (list ret) t
  m_maplist (entry key value m) ret t =
      expr (set_value v value (set_value k key t)) >>= λ (w, t₁). mapped (m_maplist m) ret w t₁

  abbrev each : (Value → State → Outcome) → Value → State → Outcome
  each next null t = done null t
  each next break_value t = done void t
  each next w t = next w t

  -- `ret` is the result of the last round.
  unfoldable pub m_foreach : Pairs → Value → State → Outcome
  m_foreach end ret t = done ret t
  m_foreach (entry key value m) ret t =
      expr (set_value v value (set_value k key t)) >>= λ (w, t₁). each (m_foreach m) w t₁
