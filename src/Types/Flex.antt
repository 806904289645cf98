-- ===== src/Types/Flex.antt =====
-- The overridings of Type::clone, Type::unflex and Type::matchFlex. `none` is a fault; a null
-- result of matchFlex is `some none`.
pub mod Laws
use yast_core.Prelude.{ℕ, suc, not, ◌&&◌, ◌||◌, Option, none, some, ◌==◌, if◌then◌else◌}
use yast_core.Prelude.Fault.{◌>>=◌}
use yast_core.Types.Defs.{
  Quals, plain, YcpType, YcpTypes, base, flex, nflex, variable, list, map, block, tuple,
  function_void, function, nil, cons, set_quals, is_const, is_reference, is_unspec, is_error,
  is_variable, is_list, is_map, is_block, is_tuple, is_function, is_flex, any_type, parameter_type,
  parameters, element_of, map_parts, types_of, return_of,
}

-- `new TupleType (m_types[0])` and `concat` for the others: an empty tuple has no first component.
unfoldable pub rebuild_tuple : YcpTypes → Option YcpType
rebuild_tuple nil = none
rebuild_tuple (cons t ts) = some (tuple plain (cons t ts))

-- `new FunctionType (m_returntype)` and `concat` for each parameter, which makes the tuple at the
-- first one.
unfoldable pub rebuild_function : YcpType → YcpTypes → YcpType
rebuild_function r nil = function_void plain r
rebuild_function r (cons t ts) = function plain r plain (cons t ts)

-- A clone shares its parts with the original and has no qualifiers.
unfoldable pub clone : YcpType → Option YcpType
unfolding rebuild_tuple rebuild_function
clone (base k q) = some (base k plain)
clone (flex q) = some (flex plain)
clone (nflex q n) = some (nflex plain n)
clone (variable q t) = some (variable plain t)
clone (list q t) = some (list plain t)
clone (map q k v) = some (map plain k v)
clone (block q t) = some (block plain t)
clone (tuple q ts) = rebuild_tuple ts
clone (function_void q r) = some (function_void plain r)
clone (function q r p ts) = some (rebuild_function r ts)

-- `tp = type->clone ()`, with the qualifiers of the flex that it replaces put on it.
unfoldable pub substitute : Quals → YcpType → Option YcpType
unfolding clone
substitute q type = clone type >>= λ tp. some (
    set_quals
      (record {
        is_const = q.is_const || is_const tp;
        is_reference = q.is_reference || is_reference tp;
      })
      tp)

-- The overridings. The results for the parts are arguments, which `unflex` below fills.
abbrev unflex_flex : Quals → YcpType → ℕ → Option YcpType
unflex_flex q type number = if number == 0 then substitute q type else clone (flex q)

abbrev unflex_nflex : Quals → ℕ → YcpType → ℕ → Option YcpType
unflex_nflex q n type number = if n == number then substitute q type else clone (nflex q n)

abbrev unflex_variable : Option YcpType → Option YcpType
unflex_variable element = element >>= λ u. some (variable plain u)

abbrev unflex_list : Option YcpType → Option YcpType
unflex_list element = element >>= λ u. some (list plain u)

abbrev unflex_map : YcpType → YcpType → YcpType → Option YcpType → Option YcpType → Option YcpType
unflex_map this k v of_key of_value =
    if is_flex k
    then (of_key >>= λ k'. some (map plain k' v))
    else if is_flex v
    then (of_value >>= λ v'. some (map plain k v'))
    else clone this

abbrev unflex_block : Option YcpType → Option YcpType
unflex_block element = element >>= λ u. some (block plain u)

abbrev unflex_tuple : Option YcpTypes → Option YcpType
unflex_tuple components = components >>= rebuild_tuple

-- FunctionType::unflex without a tuple of parameters, and with one.
abbrev unflex_procedure : Option YcpType → Option YcpType
unflex_procedure result = result >>= λ r'. some (function_void plain r')

abbrev unflex_function : Option YcpType → Option YcpTypes → Option YcpType
unflex_function result components = do r' ← result; ts' ← components; some (rebuild_function r' ts')

unfoldable mutual
  pub unflex : YcpType → YcpType → ℕ → Option YcpType
  unflex (base k q) type number = clone (base k q)
  unflex (flex q) type number = unflex_flex q type number
  unflex (nflex q n) type number = unflex_nflex q n type number
  unflex (variable q t) type number = unflex_variable (unflex t type number)
  unflex (list q t) type number = unflex_list (unflex t type number)
  unflex (map q k v) type number =
      unflex_map (map q k v) k v (unflex k type number) (unflex v type number)
  unflex (block q t) type number = unflex_block (unflex t type number)
  unflex (tuple q ts) type number = unflex_tuple (unflex_each ts type number)
  unflex (function_void q r) type number = unflex_procedure (unflex r type number)
  unflex (function q r p ts) type number =
      unflex_function (unflex r type number) (unflex_each ts type number)

  pub unflex_each : YcpTypes → YcpType → ℕ → Option YcpTypes
  unflex_each nil type number = some nil
  unflex_each (cons t ts) type number = do
    t' ← unflex t type number
    ts' ← unflex_each ts type number
    some (cons t' ts')

-- What a flex stands for when it meets `type`.
unfoldable pub bound_to : YcpType → YcpType
bound_to type = if is_unspec type then any_type else type

-- The first result that is not null.
unfoldable pub first_found :
    Option (Option YcpType) → Option (Option YcpType) → Option (Option YcpType)
first_found m n = m >>= λ found. elim found [ some t ↦ some (some t) | none ↦ n ]

abbrev match_flex_flex : YcpType → ℕ → Option (Option YcpType)
match_flex_flex type number = some (if number == 0 then some (bound_to type) else none)

abbrev match_flex_nflex : ℕ → YcpType → ℕ → Option (Option YcpType)
match_flex_nflex n type number =
    some (if not (number == 0) && number == n then some (bound_to type) else none)

-- The overridings. The searches in the parts are arguments, which `match_flex` below fills.
abbrev match_flex_variable : (YcpType → Option (Option YcpType)) → YcpType → Option (Option YcpType)
match_flex_variable in_element type =
    if is_variable type then (element_of type >>= λ u. in_element u) else some none

abbrev match_flex_list : (YcpType → Option (Option YcpType)) → YcpType → Option (Option YcpType)
match_flex_list in_element type =
    if is_list type then (element_of type >>= λ u. in_element u) else some none

abbrev match_flex_map :
    (YcpType → Option (Option YcpType))
    → (YcpType → Option (Option YcpType))
    → YcpType
    → Option (Option YcpType)
match_flex_map in_key in_value type =
    if is_map type
    then (map_parts type >>= λ (k', v'). first_found (in_value v') (in_key k'))
    else some none

abbrev match_flex_block : (YcpType → Option (Option YcpType)) → YcpType → Option (Option YcpType)
match_flex_block in_element type =
    if is_block type then (element_of type >>= λ u. in_element u) else some none

abbrev match_flex_tuple :
    (YcpTypes → ℕ → Option (Option YcpType)) → YcpType → Option (Option YcpType)
match_flex_tuple in_each type =
    if is_tuple type then (types_of type >>= λ us. in_each us 0) else some none

abbrev match_flex_function :
    (YcpTypes → ℕ → Option (Option YcpType)) → YcpType → Option (Option YcpType)
match_flex_function in_each type =
    if is_function type then (return_of type >>= λ _. in_each (parameters type) 0) else some none

unfoldable mutual
  pub match_flex : YcpType → YcpType → ℕ → Option (Option YcpType)
  match_flex (base k q) type number = some none
  match_flex (flex q) type number = match_flex_flex type number
  match_flex (nflex q n) type number = match_flex_nflex n type number
  match_flex (variable q t) type number = match_flex_variable (λ u. match_flex t u number) type
  match_flex (list q t) type number = match_flex_list (λ u. match_flex t u number) type
  match_flex (map q k v) type number =
      match_flex_map (λ u. match_flex k u number) (λ u. match_flex v u number) type
  match_flex (block q t) type number = match_flex_block (λ u. match_flex t u number) type
  match_flex (tuple q ts) type number =
      match_flex_tuple (λ us i. match_flex_each ts us i number) type
  match_flex (function_void q r) type number = some none
  match_flex (function q r p ts) type number =
      match_flex_function (λ us i. match_flex_each ts us i number) type

  -- The loop over the components, which ends at the first one that the other side has not.
  pub match_flex_each : YcpTypes → YcpTypes → ℕ → ℕ → Option (Option YcpType)
  match_flex_each nil us index number = some none
  match_flex_each (cons t ts) us index number =
      let u = parameter_type us index in
      let here = first_found (match_flex t u number) (match_flex_each ts us (suc index) number) in
      if is_error u then some none else here
