-- ===== src/Builtins/Terms.antt =====
-- The builtins on terms of libycp/src/YCPBuiltinTerm.cc. select counts the arguments from 0, remove
-- from 1.
pub mod Laws
use yast_core.Prelude.{zero, suc, false, Option, some, if◌then◌else◌}
use yast_core.Prelude.Int.{ℤ, pos, negsuc}
use yast_core.Prelude.Fault.{◌>>=◌}
use yast_core.Values.Defs.{
  Value, Values, null, integer, string, symbol, list, term, nil, cons, size, is_null,
}
use yast_core.Values.List.{in_range, functional_add, push_back, remove, value}

unfoldable pub t_size : Value → Value
t_size (term s vs) = integer (pos (size vs))
t_size v = null

unfoldable pub t_add : Value → Value → Value
unfolding functional_add
t_add (term s vs) v = if is_null v then null else term s (functional_add vs v false)
t_add t v = null

unfoldable pub t_symbolof : Value → Value
t_symbolof (term s vs) = symbol s
t_symbolof v = null

unfoldable pub t_select : Value → Value → Value → Value
unfolding value
t_select (term s vs) (integer i) def = if in_range vs i then value vs i else def
t_select t i def = null

unfoldable pub t_toterm1 : Value → Value
t_toterm1 (term s vs) = term s vs
t_toterm1 (string s) = term s nil
t_toterm1 (symbol s) = term s nil
t_toterm1 v = null

-- The loop that adds the elements one by one.
unfoldable pub add_each : Values → Values → Values
unfolding push_back
add_each args nil = args
add_each args (cons v vs) = add_each (push_back args v) vs

unfoldable pub t_toterm2 : Value → Value → Value
unfolding add_each
t_toterm2 (symbol s) (list vs) = term s (add_each nil vs)
t_toterm2 s l = null

-- The arguments without the one at a position that counts from 1; the process is aborted (`none`)
-- where YCPListRep::remove is.
unfoldable pub remove_from_one : Values → ℤ → Option Values
unfolding remove
remove_from_one args (negsuc i) = some args
remove_from_one args (pos zero) = some args
remove_from_one args (pos (suc i)) =
    let removed = remove args (pos i) in if in_range args (pos i) then removed else some args

unfoldable pub t_remove : Value → Value → Option Value
unfolding remove_from_one
t_remove (term s vs) (integer i) = remove_from_one vs i >>= λ args. some (term s args)
t_remove t i = some null

unfoldable pub t_argsof : Value → Value
t_argsof (term s vs) = list vs
t_argsof v = null
