-- ===== src/Types/Match.antt =====
-- Type::basematch and the overridings of Type::match. The result is the `int` of the source:
-- negative for no match, 0 for a match, positive for a propagated match; `none` is a fault.
pub mod Laws
use yast_core.Prelude.{
  ℕ, suc, ◌-◌, Bool, not, ◌&&◌, ◌||◌, Option, none, some, ◌==◌, ltb, if◌then◌else◌, same_bool,
}
use yast_core.Prelude.Int.{ℤ, pos, negsuc, eqb_ℤ, is_negative}
use yast_core.Prelude.Fault.{◌>>=◌}
use yast_core.Types.Kind.{
  Kind, unspec_t, any_t, float_t, integer_t, locale_t, string_t, void_t, same_kind, is_free_kind,
}
use yast_core.Types.Defs.{
  YcpType, YcpTypes, base, flex, nflex, variable, list, map, block, tuple, function_void, function,
  nil, cons, kind, is_basetype, is_const, is_reference, is_unspec, is_error, is_void, is_wildcard,
  is_variable, is_list, is_map, is_block, is_tuple, is_function, is_flex, count, nth,
  parameter_type, parameters, element_of, map_parts, types_of, return_of,
}

unfoldable pub basematch : YcpType → YcpType → ℤ
basematch this expected =
    if is_error this || is_error expected
    then negsuc 0
    else if is_reference expected && (not (is_const expected) && is_const this)
    then negsuc 0
    else if is_free_kind (kind expected)
    then pos 1
    else if is_void this
    then pos 0
    else if same_bool (is_basetype this) (is_basetype expected)
    then pos 0
    else negsuc 0

-- Type::match behind its call of basematch.
unfoldable pub propagate : Kind → Kind → ℤ
propagate any_t ek = negsuc 0
propagate unspec_t ek = pos 0
propagate void_t ek = pos 0
propagate integer_t ek = if same_kind ek float_t then pos 2 else negsuc 0
propagate float_t ek = if same_kind ek integer_t then pos 1 else negsuc 0
propagate locale_t ek = if same_kind ek string_t then pos 0 else negsuc 0
propagate string_t ek = if same_kind ek locale_t then pos 0 else negsuc 0
propagate _ ek = negsuc 0

unfoldable pub match_base : YcpType → YcpType → ℤ
unfolding basematch propagate
match_base this expected =
    if is_negative (basematch this expected)
    then negsuc 0
    else if is_free_kind (kind expected)
    then pos 0
    else if same_kind (kind this) (kind expected)
    then pos 0
    else propagate (kind this) (kind expected)

-- FlexType::match and NFlexType::match.
unfoldable pub match_flex_kind : YcpType → ℤ
match_flex_kind expected = if is_flex expected then pos 0 else negsuc 0

-- How the constructed types use basematch: a free match is a match, and only behind a plain one
-- are the parts looked at.
unfoldable pub by_basematch : ℤ → Bool → Option ℤ → Option ℤ
by_basematch bm same parts =
    if eqb_ℤ bm (pos 1)
    then some (pos 0)
    else if eqb_ℤ bm (pos 0) && same
    then parts
    else some (negsuc 0)

-- `… >= 0` as the result of a match.
abbrev pub flatten : ℤ → ℤ
flatten r = if is_negative r then negsuc 0 else pos 0

unfoldable pub both : Option ℤ → Option ℤ → Option ℤ
both m n = m >>= λ r. if is_negative r then some (negsuc 0) else n >>= λ r'. some (flatten r')

-- The tests of FunctionType::match on the number of parameters, for a function without a tuple.
unfoldable pub match_no_arguments : YcpTypes → Option ℤ
match_no_arguments expected =
    if count expected == 0
    then some (pos 0)
    else if is_wildcard (parameter_type expected (count expected - 1))
    then none
    else some (negsuc 0)

-- The overridings. The matches of the parts are arguments, which `match` below fills.
abbrev match_variable : YcpType → (YcpType → Option ℤ) → YcpType → Option ℤ
match_variable this by_element e =
    by_basematch (basematch this e) (is_variable e)
      do u ← element_of e; r ← by_element u; some (flatten r)

abbrev match_list : YcpType → YcpType → (YcpType → Option ℤ) → YcpType → Option ℤ
match_list this t by_element e = by_basematch (basematch this e) (is_list e) do
  u ← element_of e
  r ← if is_unspec u || is_unspec t then some (pos 0) else by_element u
  some (flatten r)

abbrev match_map :
    YcpType → YcpType → YcpType → (YcpType → Option ℤ) → (YcpType → Option ℤ) → YcpType → Option ℤ
match_map this k v by_key by_value e = by_basematch (basematch this e) (is_map e) do
  (k', v') ← map_parts e
  both (if is_unspec k then some (pos 0) else by_key k')
      (if is_unspec v then some (pos 0) else by_value v')

abbrev match_block : YcpType → (YcpType → Option ℤ) → YcpType → Option ℤ
match_block this by_element e =
    by_basematch (basematch this e) (is_block e)
      do u ← element_of e; r ← by_element u; some (flatten r)

-- A loop over parameters takes what is expected at an index, the expected number, whether the last
-- one is the wildcard, and the first index.
abbrev match_tuple : YcpType → ((ℕ → Option YcpType) → ℕ → Bool → ℕ → Option ℤ) → YcpType → Option ℤ
match_tuple this by_each e = by_basematch (basematch this e) (is_tuple e) do
  us ← types_of e
  last ← nth us (count us - 1)
  by_each (nth us) (count us) (is_wildcard last) 0

-- FunctionType::match without a tuple of parameters, and with one.
abbrev match_procedure : YcpType → (YcpType → Option ℤ) → YcpType → Option ℤ
match_procedure this by_result e = by_basematch (basematch this e) (is_function e) do
  r' ← return_of e
  m ← by_result r'
  if is_negative m then some (negsuc 0) else match_no_arguments (parameters e)

abbrev match_function :
    YcpType
    → YcpTypes
    → (YcpType → Option ℤ)
    → ((ℕ → Option YcpType) → ℕ → Bool → ℕ → Option ℤ)
    → YcpType
    → Option ℤ
match_function this ts by_result by_each e = by_basematch (basematch this e) (is_function e) do
  r' ← return_of e
  m ← by_result r'
  let us = parameters e
  let esize = count us
  let wildcard = is_wildcard (parameter_type us (esize - 1))
  let each = by_each (λ i. some (parameter_type us i)) esize wildcard 0
  if is_negative m || (not wildcard && not (esize == count ts)) then some (negsuc 0) else each

unfoldable mutual
  pub match : YcpType → YcpType → Option ℤ
  match (base k q) e = some (match_base (base k q) e)
  match (flex q) e = some (match_flex_kind e)
  match (nflex q n) e = some (match_flex_kind e)
  match (variable q t) e = match_variable (variable q t) (match t) e
  match (list q t) e = match_list (list q t) t (match t) e
  match (map q k v) e = match_map (map q k v) k v (match k) (match v) e
  match (block q t) e = match_block (block q t) (match t) e
  match (tuple q ts) e = match_tuple (tuple q ts) (match_each ts) e
  match (function_void q r) e = match_procedure (function_void q r) (match r) e
  match (function q r p ts) e = match_function (function q r p ts) ts (match r) (match_each ts) e

  -- The loop over the parameters from `index` on.
  pub match_each : YcpTypes → (ℕ → Option YcpType) → ℕ → Bool → ℕ → Option ℤ
  match_each nil expected esize wildcard index = some (pos 0)
  match_each (cons t ts) expected esize wildcard index =
      let step = do
        u ← expected index
        r ← match t u
        if is_negative r then some (negsuc 0) else match_each ts expected esize wildcard (suc index)
      in if wildcard && ltb esize index then some (pos 0) else step
