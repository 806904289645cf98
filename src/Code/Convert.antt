-- ===== src/Code/Convert.antt =====
-- The parts of libycp/src/YExpression.cc that look at values alone: YECompare, YEPropagate, YEIs.
-- `none` is a fault.
pub mod Kinds
pub mod Typing
use yast_core.Prelude.{
  ℕ, Bool, true, false, not, ◌&&◌, ◌||◌, Option, none, some, ◌==◌, if◌then◌else◌,
}
use yast_core.Prelude.Int.{ℤ, is_negative}
use yast_core.Prelude.Fault.{◌>>=◌}
use yast_core.Types.Kind.{
  Kind, unspec_t, error_t, any_t, boolean_t, byteblock_t, float_t, integer_t, locale_t, path_t,
  string_t, symbol_t, term_t, void_t, wildcard_t, flex_t, variable_t, list_t, map_t, block_t,
  tuple_t, function_t, nil_t, nflex_t,
}
use yast_core.Types.Defs.{
  YcpType, kind, is_basetype, is_any, is_unspec, is_float, is_integer, is_list, is_map, element_of,
  map_parts,
}
use yast_core.Values.Order.{YcpOrder, less, equal, greater, fault}
use yast_core.Values.Defs.{
  Value, Values, Pairs, Doubles, null, void, boolean, integer, float, list, map, return_value, nil,
  cons, end, entry, valuetype,
}
use yast_core.Values.Compare.{compare}
use yast_core.Values.Typing.{match_value}
use yast_core.Code.Syntax.{Comparison, c_eq, c_neq, c_lt, c_ge, c_le, c_gt}

-- YCPValueRep::isVoid, which holds of the result of `return;` too.
abbrev pub is_void : Value → Bool
is_void void = true
is_void return_value = true
is_void _ = false

-- `v.isNull () || v->isVoid ()`
abbrev pub is_nil : Value → Bool
is_nil null = true
is_nil v = is_void v

abbrev holds : Comparison → YcpOrder → Option Value
holds op fault = none
holds c_eq equal = some (boolean true)
holds c_eq _ = some (boolean false)
holds c_neq equal = some (boolean false)
holds c_neq _ = some (boolean true)
holds c_lt less = some (boolean true)
holds c_lt _ = some (boolean false)
holds c_ge less = some (boolean false)
holds c_ge _ = some (boolean true)
holds c_le greater = some (boolean false)
holds c_le _ = some (boolean true)
holds c_gt greater = some (boolean true)
holds c_gt _ = some (boolean false)

-- Where an operand is nil.
abbrev compare_nil : Comparison → Bool → Bool → Value
compare_nil c_eq l r = boolean (l && r)
compare_nil c_neq l r = boolean (not (l && r))
compare_nil _ l r = null

unfoldable pub compare_values : Doubles → Comparison → Value → Value → Option Value
compare_values doubles op vl vr =
    if is_nil vl || is_nil vr
    then some (compare_nil op (is_nil vl) (is_nil vr))
    else holds op (compare doubles vl vr)

-- Type::valueType, as the numbers of YCPValueType.
abbrev pub value_type : Kind → ℕ
value_type unspec_t = 15
value_type void_t = 0
value_type any_t = 0
value_type boolean_t = 1
value_type integer_t = 2
value_type float_t = 3
value_type string_t = 4
value_type byteblock_t = 5
value_type path_t = 6
value_type term_t = 9
value_type symbol_t = 7
value_type error_t = 15
value_type locale_t = 4
value_type wildcard_t = 15
value_type flex_t = 15
value_type nflex_t = 15
value_type variable_t = 14
value_type block_t = 11
value_type list_t = 8
value_type map_t = 10
value_type tuple_t = 15
value_type function_t = 15
value_type nil_t = 0

-- The first test of YEPropagate::canPropagate.
abbrev pub fits : Value → YcpType → Bool
fits v to =
    is_nil v
    || (is_any to || (is_unspec to || (is_basetype to && (valuetype v == value_type (kind to)))))

abbrev pub also : Option Bool → Option Bool → Option Bool
also m n = m >>= λ b. if b then n else some false

abbrev pub fits_or : Value → YcpType → Option Bool → Option Bool
fits_or v to other = if fits v to then some true else other

unfoldable mutual
  pub can_propagate : Value → YcpType → Option Bool
  can_propagate (list vs) to =
      let by_element = element_of to >>= λ u.
      if is_any u || is_unspec u then some true else can_propagate_all vs u in
      fits_or (list vs) to (if is_list to then by_element else some false)
  can_propagate (map m) to =
      let by_entry = map_parts to >>= λ (k, u).
      if (is_any u && is_any k) || (is_unspec u && is_unspec k)
      then some true
      else can_propagate_pairs m k u in
      fits_or (map m) to (if is_map to then by_entry else some false)
  can_propagate v to = some (fits v to)

  pub can_propagate_all : Values → YcpType → Option Bool
  can_propagate_all nil u = some true
  can_propagate_all (cons v vs) u = also (can_propagate v u) (can_propagate_all vs u)

  pub can_propagate_pairs : Pairs → YcpType → YcpType → Option Bool
  can_propagate_pairs end k u = some true
  can_propagate_pairs (entry key v m) k u =
      also (can_propagate key k) (also (can_propagate v u) (can_propagate_pairs m k u))

-- The casts between `long long` and `double`.
pub record Conversions : Type 0 where
  pub to_double : ℤ → ℕ
  pub to_integer : ℕ → ℤ

-- A value that is neither of the two numbers: unchanged, or null with a message.
unfoldable pub keep_if_fits : Value → YcpType → Option Value
unfolding can_propagate
keep_if_fits v to = can_propagate v to >>= λ b. some (if b then v else null)

-- YEPropagate::evaluate, behind its argument.
unfoldable pub convert : Conversions → YcpType → Value → Option Value
unfolding keep_if_fits
convert c to (integer i) =
    if is_float to then some (float (c.to_double i)) else keep_if_fits (integer i) to
convert c to (float f) =
    if is_integer to then some (integer (c.to_integer f)) else keep_if_fits (float f) to
convert c to v = if is_nil v then some v else keep_if_fits v to

-- YEIs::evaluate, behind its argument.
unfoldable pub has_type : YcpType → Value → Option Value
has_type t null = some null
has_type t v = match_value t v >>= λ r. some (boolean (not (is_negative r)))
