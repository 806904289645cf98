-- ===== src/Builtins/Lists.antt =====
-- libycp/src/YCPBuiltinList.cc: the builtins on lists that evaluate no code. An argument of the
-- declared type or a null handle comes in, so other values give what a null handle gives. `none` is
-- a fault: a call through a null handle.
pub mod Union
pub mod Set
use yast_core.Prelude.{true, false, not, Option, none, some, ◌&&◌, if◌then◌else◌}
use yast_core.Prelude.Int.{pos, to_int}
use yast_core.Prelude.Fault.{◌>>=◌}
use yast_core.Values.Defs.{Value, Values, Doubles, null, boolean, integer, list, nil, cons, size}
use yast_core.Values.List.{push_back, append_all, functional_add, contains, remove, swap, value}
use yast_core.Values.List.{in_range}
use yast_core.Values.Map.{ycp_less}

unfoldable pub l_prepend : Value → Value → Value
l_prepend (list vs) value = list (functional_add vs value true)
l_prepend l value = null

unfoldable pub l_add : Value → Value → Value
l_add (list vs) value = list (functional_add vs value false)
l_add l value = null

unfoldable pub l_mergelist : Value → Value → Value
l_mergelist (list vs) (list ws) = list (append_all (append_all nil vs) ws)
l_mergelist l m = null

unfoldable pub l_size : Value → Value
l_size (list vs) = integer (pos (size vs))
l_size l = integer (pos 0)

unfoldable pub l_tolist : Value → Value
l_tolist (list vs) = list vs
l_tolist v = null

unfoldable pub l_isempty : Value → Option Value
l_isempty (list nil) = some (boolean true)
l_isempty (list vs) = some (boolean false)
l_isempty l = none

-- The outer loop, behind the lists that `ret` has the elements of.
unfoldable pub flatten_onto : Values → Values → Option Value
flatten_onto ret nil = some (list ret)
flatten_onto ret (cons (list vs) rest) = flatten_onto (append_all ret vs) rest
flatten_onto ret (cons null rest) = none
flatten_onto ret (cons v rest) = some null

unfoldable pub l_flatten : Value → Option Value
unfolding flatten_onto
l_flatten (list vs) = flatten_onto nil vs
l_flatten l = some null

unfoldable pub l_remove : Value → Value → Option Value
l_remove (list vs) (integer i) =
    let removed = remove vs i >>= λ ws. some (list ws) in
    if in_range vs i then removed else some (list vs)
l_remove l i = some null

unfoldable pub l_select : Value → Value → Value → Value
l_select (list vs) (integer i) def = if in_range vs i then value vs i else def
l_select l i def = def

-- The indices are kept in an `int`.
unfoldable pub l_swaplist : Value → Value → Value → Value
l_swaplist (list vs) (integer i) (integer j) =
    if in_range vs (to_int i) && in_range vs (to_int j)
    then list (swap vs (to_int i) (to_int j))
    else list vs
l_swaplist l i j = null

module _ (doubles : Doubles) where
  unfoldable pub l_contains : Value → Value → Option Value
  l_contains (list vs) value = some (boolean (contains doubles vs value))
  l_contains l value = none

  -- The inner loop of l_unionlist.
  unfoldable pub add_new : Values → Values → Values
  add_new newlist nil = newlist
  add_new newlist (cons v vs) =
      add_new (if not (contains doubles newlist v) then push_back newlist v else newlist) vs

  unfoldable pub l_unionlist : Value → Value → Value
  unfolding add_new
  l_unionlist (list vs) (list ws) = list (add_new (add_new nil vs) ws)
  l_unionlist l m = null

  -- `insert` of the STL set, which leaves an equivalent element as it is.
  unfoldable pub set_insert : Value → Values → Values
  set_insert v nil = cons v nil
  set_insert v (cons w ws) =
      if ycp_less doubles w v
      then cons w (set_insert v ws)
      else if not (ycp_less doubles v w)
      then cons w ws
      else cons v (cons w ws)

  unfoldable pub insert_all : Values → Values → Values
  unfolding set_insert
  insert_all newset nil = newset
  insert_all newset (cons v vs) = insert_all (set_insert v newset) vs

  unfoldable pub l_toset : Values → Value
  unfolding insert_all
  l_toset vs = list (append_all nil (insert_all nil vs))
