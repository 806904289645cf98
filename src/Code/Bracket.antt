-- ===== src/Code/Bracket.antt =====
-- Bracket access, YEBracket::evaluate behind its arguments, and bracket assignment,
-- YSBracket::commit (libycp/src/YExpression.cc, libycp/src/YStatement.cc).
pub mod RoundTrip
pub mod Range
use yast_core.Prelude.{Bool, true, false, not, ◌&&◌, Option, some, if◌then◌else◌}
use yast_core.Prelude.Int.{to_int}
use yast_core.Prelude.Fault.{◌>>=◌}
use yast_core.Values.Defs.{
  Value, Values, Doubles, null, integer, list, term, map, nil, cons, is_null,
}
use yast_core.Values.List.{set, value}
use yast_core.Values.Map
use yast_core.Code.State.{void_if_null}

abbrev is_last : Values → Bool
is_last nil = true
is_last _ = false

-- What is stored for the recursive call's result: a null one ends the assignment, except at the
-- last index, where the result is the new value itself.
abbrev stored : Values → Value → (Value → Option Value) → Option Value
stored is v store = if not (is_last is) && is_null v then some null else store (void_if_null v)

module _ (doubles : Doubles) where
  -- The loop over the indices; null where a structure or an index is not fit.
  unfoldable pub select : Value → Values → Value
  select v nil = v
  select v (cons null is) = null
  select null is = null
  select (list vs) (cons (integer i) is) = select (value vs i) is
  select (term s vs) (cons (integer i) is) = select (value vs i) is
  select (map m) (cons i is) = select (Map.value doubles i m) is
  select _ _ = null

  -- The remaining indices stand for `idx`. `none` is a fault of the map's operations.
  unfoldable pub commit : Value → Values → Value → Option Value
  unfolding to_int
  commit current nil v = some v
  commit null is v = some null
  commit current (cons null is) v = some null
  commit (list vs) (cons (integer i) is) v = do
    u ← commit (value vs (to_int i)) is v
    stored is u λ w. some (list (set vs (to_int i) w))
  commit (term s vs) (cons (integer i) is) v = do
    u ← commit (value vs (to_int i)) is v
    stored is u λ w. some (term s (set vs (to_int i) w))
  commit (map m) (cons i is) v = do
    u ← commit (Map.value doubles i m) is v
    stored is u λ w. Map.functional_add doubles i w m
  commit _ _ v = some null
