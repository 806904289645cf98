-- ===== src/Types/Equals.antt =====
-- The overridings of Type::equals and Type::canCast. `none` is a fault: a null or out-of-range
-- access.
--
-- TupleType::equals and TupleType::canCast write `(const TupleType)expected`. That is no cast to
-- the subclass: it calls the constructor TupleType (constTypePtr), so the object compared with is a
-- new tuple whose single component is the expected type itself.
pub mod Laws
use yast_core.Prelude.{
  ℕ, suc, Bool, true, false, not, ◌&&◌, Option, none, some, ◌==◌, if◌then◌else◌, same_bool,
}
use yast_core.Prelude.Int.{is_negative}
use yast_core.Prelude.Fault.{◌>>=◌}
use yast_core.Types.Kind.{same_kind}
use yast_core.Types.Defs.{
  YcpType, YcpTypes, base, flex, nflex, variable, list, map, block, tuple, function_void, function,
  nil, cons, kind, is_basetype, is_any, is_variable, is_list, is_map, is_block, is_tuple,
  is_function, count, parameter_type, parameters, element_of, map_parts, return_of,
}
use yast_core.Types.Match.{match}

-- Type::equals, which the flex types inherit.
unfoldable pub equals_base : YcpType → YcpType → Bool
equals_base this expected =
    same_bool (is_basetype this) (is_basetype expected) && same_kind (kind expected) (kind this)

-- Behind `&&`, which stops at false.
unfoldable pub and_then : Option Bool → Option Bool → Option Bool
and_then m n = m >>= λ b. if b then n else some false

-- The components of a TupleType against the temporary `(const TupleType)expected`: its size is 1,
-- and two components that are equal make the tuples differ.
unfoldable pub tuple_verdict : ℕ → Option Bool → Option Bool
tuple_verdict size first_equals =
    if size == 1 then (first_equals >>= λ b. some (not b)) else some false

-- The overridings. The comparisons of the parts are arguments, which `equals` below fills.
abbrev equals_variable : (YcpType → Option Bool) → YcpType → Option Bool
equals_variable by_element e =
    if is_variable e then (element_of e >>= λ u. by_element u) else some false

abbrev equals_list : (YcpType → Option Bool) → YcpType → Option Bool
equals_list by_element e = if is_list e then (element_of e >>= λ u. by_element u) else some false

abbrev equals_map : (YcpType → Option Bool) → (YcpType → Option Bool) → YcpType → Option Bool
equals_map by_key by_value e =
    if is_map e
    then (map_parts e >>= λ (k', v'). and_then (by_value v') (by_key k'))
    else some false

abbrev equals_block : (YcpType → Option Bool) → YcpType → Option Bool
equals_block by_element e = if is_block e then (element_of e >>= λ u. by_element u) else some false

-- FunctionType::equals without a tuple of parameters, and with one.
abbrev equals_procedure : (YcpType → Option Bool) → YcpType → Option Bool
equals_procedure by_result e =
    if is_function e
    then (return_of e >>= λ r'.
        and_then (by_result r') (if count (parameters e) == 0 then some true else none))
    else some false

abbrev equals_function :
    (YcpType → Option Bool) → (YcpTypes → ℕ → Option Bool) → YcpType → Option Bool
equals_function by_result by_each e =
    if is_function e
    then (return_of e >>= λ r'. and_then (by_result r') (by_each (parameters e) 0))
    else some false

unfoldable mutual
  pub equals : YcpType → YcpType → Option Bool
  equals (base k q) e = some (equals_base (base k q) e)
  equals (flex q) e = some (equals_base (flex q) e)
  equals (nflex q n) e = some (equals_base (nflex q n) e)
  equals (variable q t) e = equals_variable (equals t) e
  equals (list q t) e = equals_list (equals t) e
  equals (map q k v) e = equals_map (equals k) (equals v) e
  equals (block q t) e = equals_block (equals t) e
  equals (tuple q ts) e =
      if is_tuple e then tuple_verdict (count ts) (first_equals ts e) else some false
  equals (function_void q r) e = equals_procedure (equals r) e
  equals (function q r p ts) e = equals_function (equals r) (equals_each ts) e

  pub first_equals : YcpTypes → YcpType → Option Bool
  first_equals nil e = none
  first_equals (cons t ts) e = equals t e

  -- The loop of FunctionType::equals over its own parameters from `index` on.
  pub equals_each : YcpTypes → YcpTypes → ℕ → Option Bool
  equals_each nil us index = some true
  equals_each (cons t ts) us index =
      and_then (equals t (parameter_type us index)) (equals_each ts us (suc index))

-- Type::canCast, which the flex types and VariableType inherit.
unfoldable pub cast_by_match : YcpType → YcpType → Option Bool
cast_by_match this to =
    if is_any this then some true else match this to >>= λ r. some (not (is_negative r))

abbrev cast_list : (YcpType → Option Bool) → YcpType → Option Bool
cast_list by_element to = if is_list to then (element_of to >>= λ u. by_element u) else some false

abbrev cast_map : (YcpType → Option Bool) → (YcpType → Option Bool) → YcpType → Option Bool
cast_map by_key by_value to =
    if is_map to
    then (map_parts to >>= λ (k', v'). and_then (by_key k') (by_value v'))
    else some false

abbrev cast_block : (YcpType → Option Bool) → YcpType → Option Bool
cast_block by_element to = if is_block to then (element_of to >>= λ u. by_element u) else some false

unfoldable mutual
  pub can_cast : YcpType → YcpType → Option Bool
  can_cast (base k q) to = cast_by_match (base k q) to
  can_cast (flex q) to = cast_by_match (flex q) to
  can_cast (nflex q n) to = cast_by_match (nflex q n) to
  can_cast (variable q t) to = cast_by_match (variable q t) to
  can_cast (list q t) to = cast_list (can_cast t) to
  can_cast (map q k v) to = cast_map (can_cast k) (can_cast v) to
  can_cast (block q t) to = cast_block (can_cast t) to
  can_cast (tuple q ts) to = if is_tuple to then cast_components ts to else some false
  can_cast (function_void q r) to = some false
  can_cast (function q r p ts) to = some false

  -- The temporary has one component: a second one is out of range.
  pub cast_components : YcpTypes → YcpType → Option Bool
  cast_components nil to = some true
  cast_components (cons t ts) to =
      and_then (can_cast t to) (elim ts [ nil ↦ some true | cons u us ↦ none ])
