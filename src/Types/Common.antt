-- ===== src/Types/Common.antt =====
-- Type::commontype and Type::detailedtype with the overridings of ListType and MapType.
pub mod Laws
use yast_core.Prelude.{not, ◌||◌, Option, some, if◌then◌else◌}
use yast_core.Prelude.Int.{is_negative}
use yast_core.Prelude.Fault.{◌>>=◌}
use yast_core.Types.Defs.{
  plain, YcpType, list, map, is_unspec, is_any, is_void, is_list, is_map, any_type, error_type,
  element_of, map_parts,
}
use yast_core.Types.Match.{match}

-- The type that Type::commontype gives two types that are not both constructed.
unfoldable pub common_base : YcpType → YcpType → Option YcpType
common_base this type =
    let matched = match this type >>= λ r.
    let back = match type this >>= λ r'. some (if is_negative r' then any_type else type) in
    if not (is_negative r) then some this else if not (is_any this) then back else some any_type in
    if is_void this then some type else matched

-- The overridings. The results for the parts are arguments, which `commontype` below fills.
abbrev commontype_list : YcpType → (YcpType → Option YcpType) → YcpType → Option YcpType
commontype_list this of_element type =
    if is_void type || is_unspec type
    then some this
    else if is_list type
    then (element_of type >>= λ u. of_element u >>= λ c. some (list plain c))
    else some any_type

abbrev commontype_map :
    YcpType → (YcpType → Option YcpType) → (YcpType → Option YcpType) → YcpType → Option YcpType
commontype_map this of_key of_value type =
    if is_void type || is_unspec type
    then some this
    else if is_map type
    then (map_parts type >>= λ (k', v').
        of_key k' >>= λ ck. of_value v' >>= λ cv. some (map plain ck cv))
    else some any_type

unfoldable pub commontype : YcpType → YcpType → Option YcpType
unfolding common_base
commontype (list q t) type = commontype_list (list q t) (commontype t) type
commontype (map q k v) type = commontype_map (map q k v) (commontype k) (commontype v) type
commontype t type = common_base t type

unfoldable pub detailed_base : YcpType → YcpType → Option YcpType
detailed_base this type =
    if is_void this
    then some type
    else if is_void type || is_unspec type || is_any type
    then some this
    else if is_unspec this || is_any this
    then some type
    else match this type >>= λ r.
        if not (is_negative r)
        then some type
        else match type this >>= λ r'. some (if is_negative r' then error_type else this)

abbrev detailedtype_list : YcpType → (YcpType → Option YcpType) → YcpType → Option YcpType
detailedtype_list this of_element type =
    if is_void type || is_unspec type
    then some this
    else if is_list type
    then (element_of type >>= λ u. of_element u >>= λ d. some (list plain d))
    else some error_type

abbrev detailedtype_map :
    YcpType → (YcpType → Option YcpType) → (YcpType → Option YcpType) → YcpType → Option YcpType
detailedtype_map this of_key of_value type =
    if is_void type || is_unspec type
    then some this
    else if is_map type
    then (map_parts type >>= λ (k', v').
        of_key k' >>= λ dk. of_value v' >>= λ dv. some (map plain dk dv))
    else some error_type

unfoldable pub detailedtype : YcpType → YcpType → Option YcpType
unfolding detailed_base
detailedtype (list q t) type = detailedtype_list (list q t) (detailedtype t) type
detailedtype (map q k v) type = detailedtype_map (map q k v) (detailedtype k) (detailedtype v) type
detailedtype t type = detailed_base t type
