-- ===== src/Types/Print.antt =====
-- The overridings of Type::toString, and preToString and postToString of libycp/src/include/ycp/Type.h.
use yast_core.Prelude.{ℕ, Bool, ◌&&◌, ◌||◌, ◌++◌, Bytes, if◌then◌else◌}
use yast_core.Prelude.Texts.{codes}
use yast_core.Types.Kind.{
  Kind, unspec_t, error_t, any_t, boolean_t, byteblock_t, float_t, integer_t, locale_t, path_t,
  string_t, symbol_t, term_t, void_t, wildcard_t, flex_t, variable_t, list_t, map_t, block_t,
  tuple_t, function_t, nil_t, nflex_t,
}
use yast_core.Types.Defs.{
  Quals, YcpType, YcpTypes, base, flex, nflex, variable, list, map, block, tuple, function_void,
  function, nil, cons, is_unspec, is_any,
}

unfoldable pub pre_to_string : Quals → Bytes
pre_to_string q = if q.is_const then codes "const " else codes ""

unfoldable pub post_to_string : Quals → Bytes
post_to_string q = if q.is_reference then codes " &" else codes ""

-- The text of class Type for each kind.
unfoldable pub kind_text : Kind → Bytes
kind_text unspec_t = codes "<unspec>"
kind_text error_t = codes "<*ERR*>"
kind_text any_t = codes "any"
kind_text boolean_t = codes "boolean"
kind_text byteblock_t = codes "byteblock"
kind_text float_t = codes "float"
kind_text integer_t = codes "integer"
kind_text locale_t = codes "locale"
kind_text path_t = codes "path"
kind_text string_t = codes "string"
kind_text symbol_t = codes "symbol"
kind_text term_t = codes "term"
kind_text void_t = codes "void"
kind_text wildcard_t = codes "..."
kind_text flex_t = codes "<T>"
kind_text variable_t = codes "<VARIABLE>"
kind_text block_t = codes "<BLOCK>"
kind_text list_t = codes "<LIST>"
kind_text map_t = codes "<MAP>"
kind_text tuple_t = codes "<TUPLE>"
kind_text function_t = codes "<FUNCTION>"
kind_text nil_t = codes "<nil>"
kind_text nflex_t = codes "<Tx>"

abbrev pub is_free : YcpType → Bool
is_free t = is_unspec t || is_any t

-- The element of a list and the parts of a map. `text` is the text of the parts.
abbrev list_parts : YcpType → Bytes → Bytes
list_parts t text = if is_free t then codes "" else codes " <" ++ (text ++ codes ">")

abbrev map_parts : YcpType → YcpType → Bytes → Bytes → Bytes
map_parts k v of_key of_value =
    if is_free k && is_free v
    then codes ""
    else codes " <" ++ (of_key ++ (codes ", " ++ (of_value ++ codes ">")))

-- `number_text` is the `%d` of snprintf, cut off behind seven characters, of an NFlexType's number.
module _ (number_text : ℕ → Bytes) where
  unfoldable mutual
    unfolding pre_to_string post_to_string kind_text

    pub to_string : YcpType → Bytes
    to_string (base k q) = pre_to_string q ++ (kind_text k ++ post_to_string q)
    to_string (flex q) = pre_to_string q ++ (codes "<T>" ++ post_to_string q)
    to_string (nflex q n) =
        pre_to_string q ++ (codes "<T" ++ (number_text n ++ (codes ">" ++ post_to_string q)))
    to_string (variable q t) = codes "variable <" ++ (to_string t ++ codes ">")
    to_string (list q t) =
        pre_to_string q ++ (codes "list" ++ (list_parts t (to_string t) ++ post_to_string q))
    to_string (map q k v) =
        pre_to_string q
        ++ (codes "map" ++ (map_parts k v (to_string k) (to_string v) ++ post_to_string q))
    to_string (block q t) =
        pre_to_string q ++ (codes "block <" ++ (to_string t ++ (codes ">" ++ post_to_string q)))
    to_string (tuple q ts) =
        pre_to_string q ++ (codes "(" ++ (join ts ++ (codes ")" ++ post_to_string q)))
    to_string (function_void q r) =
        pre_to_string q ++ (to_string r ++ (codes " (" ++ (codes ")" ++ post_to_string q)))
    to_string (function q r p ts) =
        pre_to_string q
        ++ (to_string r ++ (codes " (" ++ (join ts ++ (codes ")" ++ post_to_string q))))

    -- The loops over components and parameters, which put ", " between two.
    pub join : YcpTypes → Bytes
    join nil = codes ""
    join (cons t ts) = to_string t ++ join_behind ts

    pub join_behind : YcpTypes → Bytes
    join_behind nil = codes ""
    join_behind (cons t ts) = codes ", " ++ (to_string t ++ join_behind ts)
