-- ===== src/Types/Defs.antt =====
-- The classes of libycp/src/Type.cc as one data type: class Type itself (`base`, which may carry
-- any kind: the bytecode reader and the constants make such objects of the constructed kinds too)
-- and a constructor for each subclass. A FunctionType holds a TupleType pointer that may be null,
-- so it has two constructors.
use yast_core.Prelude.{ℕ, zero, suc, Bool, true, false, ◌||◌, Option, none, some}
use yast_core.Types.Kind.{
  Kind, unspec_t, error_t, any_t, boolean_t, byteblock_t, float_t, integer_t, locale_t, path_t,
  string_t, symbol_t, term_t, void_t, wildcard_t, flex_t, variable_t, list_t, map_t, block_t,
  tuple_t, function_t, nil_t, nflex_t, same_kind,
}

-- m_const and m_reference.
pub record Quals : Type 0 where
  pub is_const : Bool
  pub is_reference : Bool

abbrev pub plain : Quals
plain = record { is_const = false; is_reference = false }

mutual
  pub data YcpType : Type 0 where
    base : Kind → Quals → YcpType
    flex : Quals → YcpType
    nflex : Quals → ℕ → YcpType
    variable : Quals → YcpType → YcpType
    list : Quals → YcpType → YcpType
    map : Quals → YcpType → YcpType → YcpType
    block : Quals → YcpType → YcpType
    tuple : Quals → YcpTypes → YcpType
    function_void : Quals → YcpType → YcpType
    function : Quals → YcpType → Quals → YcpTypes → YcpType

  pub data YcpTypes : Type 0 where
    nil : YcpTypes
    cons : YcpType → YcpTypes → YcpTypes

abbrev pub kind : YcpType → Kind
kind (base k q) = k
kind (flex q) = flex_t
kind (nflex q n) = nflex_t
kind (variable q t) = variable_t
kind (list q t) = list_t
kind (map q k v) = map_t
kind (block q t) = block_t
kind (tuple q ts) = tuple_t
kind (function_void q r) = function_t
kind (function q r p ts) = function_t

abbrev pub quals : YcpType → Quals
quals (base k q) = q
quals (flex q) = q
quals (nflex q n) = q
quals (variable q t) = q
quals (list q t) = q
quals (map q k v) = q
quals (block q t) = q
quals (tuple q ts) = q
quals (function_void q r) = q
quals (function q r p ts) = q

abbrev pub set_quals : Quals → YcpType → YcpType
set_quals q (base k _) = base k q
set_quals q (flex _) = flex q
set_quals q (nflex _ n) = nflex q n
set_quals q (variable _ t) = variable q t
set_quals q (list _ t) = list q t
set_quals q (map _ k v) = map q k v
set_quals q (block _ t) = block q t
set_quals q (tuple _ ts) = tuple q ts
set_quals q (function_void _ r) = function_void q r
set_quals q (function _ r p ts) = function q r p ts

-- Each subclass overrides it to be false.
abbrev pub is_basetype : YcpType → Bool
is_basetype (base k q) = true
is_basetype _ = false

abbrev pub is_const : YcpType → Bool
is_const t = (quals t).is_const

abbrev pub is_reference : YcpType → Bool
is_reference t = (quals t).is_reference

abbrev pub is_kind : Kind → YcpType → Bool
is_kind k t = same_kind (kind t) k

abbrev pub is_unspec : YcpType → Bool
is_unspec = is_kind unspec_t

abbrev pub is_error : YcpType → Bool
is_error = is_kind error_t

abbrev pub is_any : YcpType → Bool
is_any = is_kind any_t

abbrev pub is_boolean : YcpType → Bool
is_boolean = is_kind boolean_t

abbrev pub is_byteblock : YcpType → Bool
is_byteblock = is_kind byteblock_t

abbrev pub is_float : YcpType → Bool
is_float = is_kind float_t

abbrev pub is_integer : YcpType → Bool
is_integer = is_kind integer_t

abbrev pub is_locale : YcpType → Bool
is_locale = is_kind locale_t

abbrev pub is_path : YcpType → Bool
is_path = is_kind path_t

abbrev pub is_string : YcpType → Bool
is_string = is_kind string_t

abbrev pub is_symbol : YcpType → Bool
is_symbol = is_kind symbol_t

abbrev pub is_term : YcpType → Bool
is_term = is_kind term_t

abbrev pub is_void : YcpType → Bool
is_void = is_kind void_t

abbrev pub is_wildcard : YcpType → Bool
is_wildcard = is_kind wildcard_t

abbrev pub is_nflex : YcpType → Bool
is_nflex = is_kind nflex_t

abbrev pub is_variable : YcpType → Bool
is_variable = is_kind variable_t

abbrev pub is_list : YcpType → Bool
is_list = is_kind list_t

abbrev pub is_map : YcpType → Bool
is_map = is_kind map_t

abbrev pub is_block : YcpType → Bool
is_block = is_kind block_t

abbrev pub is_tuple : YcpType → Bool
is_tuple = is_kind tuple_t

abbrev pub is_function : YcpType → Bool
is_function = is_kind function_t

abbrev pub is_nil : YcpType → Bool
is_nil = is_kind nil_t

-- Any of the two kinds of flex.
abbrev pub is_flex : YcpType → Bool
is_flex t = is_kind flex_t t || is_kind nflex_t t

-- The constants of class Type that the code returns.
abbrev pub any_type : YcpType
any_type = base any_t plain

abbrev pub error_type : YcpType
error_type = base error_t plain

abbrev pub count : YcpTypes → ℕ
count nil = 0
count (cons t ts) = suc (count ts)

abbrev pub nth : YcpTypes → ℕ → Option YcpType
nth nil i = none
nth (cons t ts) zero = some t
nth (cons t ts) (suc i) = nth ts i

abbrev pub concat : YcpTypes → YcpType → YcpTypes
concat nil t = cons t nil
concat (cons u us) t = cons u (concat us t)

abbrev or_error : Option YcpType → YcpType
or_error none = error_type
or_error (some t) = t

-- TupleType::parameterType: Error behind the end.
unfoldable pub parameter_type : YcpTypes → ℕ → YcpType
parameter_type ts i = or_error (nth ts i)

-- The parameters of a FunctionType; a null tuple has none.
abbrev pub parameters : YcpType → YcpTypes
parameters (function q r p ts) = ts
parameters _ = nil

-- The casts to a subclass, with the field that the caller reads through them. An object of class
-- Type that carries a constructed kind has no such field.
abbrev pub element_of : YcpType → Option YcpType
element_of (variable q t) = some t
element_of (list q t) = some t
element_of (block q t) = some t
element_of _ = none

abbrev pub map_parts : YcpType → Option (YcpType × YcpType)
map_parts (map q k v) = some (k, v)
map_parts _ = none

abbrev pub types_of : YcpType → Option YcpTypes
types_of (tuple q ts) = some ts
types_of _ = none

abbrev pub return_of : YcpType → Option YcpType
return_of (function_void q r) = some r
return_of (function q r p ts) = some r
return_of _ = none
