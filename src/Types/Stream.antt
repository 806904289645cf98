-- ===== src/Types/Stream.antt =====
-- Type::toStream with its overridings, and Bytecode::readType with the constructors that it calls
-- (libycp/src/Type.cc, libycp/src/Bytecode.cc).
pub mod RoundTrip
use yast_core.Prelude.{
  ℕ, zero, suc, true, false, Option, none, some, [], ◌++◌, Bytes, ◌==◌, if◌then◌else◌,
}
use yast_core.Prelude.Fault.{◌>>=◌}
use yast_core.Types.Kind.{
  Kind, unspec_t, error_t, any_t, boolean_t, byteblock_t, float_t, integer_t, locale_t, path_t,
  string_t, symbol_t, term_t, void_t, wildcard_t, flex_t, variable_t, list_t, map_t, block_t,
  tuple_t, function_t, nil_t, nflex_t, code,
}
use yast_core.Types.Defs.{
  Quals, YcpType, YcpTypes, base, flex, nflex, variable, list, map, block, tuple, function_void,
  function, nil, cons, is_const, is_reference, error_type, count,
}
use yast_core.Bytecode.Stream.{Stream}
use yast_core.Bytecode.Int32.{write_bool, read_bool, write_int32, read_int32}

-- Type::toStream, which each overriding calls first.
unfoldable pub write_base : Kind → Quals → Bytes
write_base k q = write_int32 (code k) ++ (write_bool q.is_const ++ write_bool q.is_reference)

-- The overridings. What is written for the parts is an argument, which `write_type` below fills.
abbrev write_nflex : Quals → ℕ → Bytes
write_nflex q n = write_base nflex_t q ++ write_int32 n

abbrev write_variable : Quals → Bytes → Bytes
write_variable q element = write_base variable_t q ++ element

abbrev write_list_type : Quals → Bytes → Bytes
write_list_type q element = write_base list_t q ++ element

abbrev write_map_type : Quals → Bytes → Bytes → Bytes
write_map_type q key value = write_base map_t q ++ (key ++ value)

abbrev write_block : Quals → Bytes → Bytes
write_block q element = write_base block_t q ++ element

abbrev write_tuple : Quals → ℕ → Bytes → Bytes
write_tuple q size components = write_base tuple_t q ++ (write_int32 size ++ components)

-- The arguments are written as a type of their own; a null pointer has none.
abbrev write_function : Quals → Bytes → Option Bytes → Bytes
write_function q result none = write_base function_t q ++ (result ++ write_bool false)
write_function q result (some arguments) =
    write_base function_t q ++ (result ++ (write_bool true ++ arguments))

unfoldable mutual
  pub write_type : YcpType → Bytes
  write_type (base k q) = write_base k q
  write_type (flex q) = write_base flex_t q
  write_type (nflex q n) = write_nflex q n
  write_type (variable q t) = write_variable q (write_type t)
  write_type (list q t) = write_list_type q (write_type t)
  write_type (map q k v) = write_map_type q (write_type k) (write_type v)
  write_type (block q t) = write_block q (write_type t)
  write_type (tuple q ts) = write_tuple q (count ts) (write_types ts)
  write_type (function_void q r) = write_function q (write_type r) none
  write_type (function q r p ts) =
      write_function q (write_type r) (some (write_tuple p (count ts) (write_types ts)))

  pub write_types : YcpTypes → Bytes
  write_types nil = []
  write_types (cons t ts) = write_type t ++ write_types ts

-- `Type (kind, str)`: the qualifiers.
unfoldable pub read_quals : Stream → Quals × Stream
read_quals s =
    let (c, s') = read_bool s in
    let (r, s'') = read_bool s' in (record { is_const = c; is_reference = r }, s'')

-- What the switch of Bytecode::readType does with a kind: a plain object of class Type, a subclass
-- whose fields follow, or the error of an unknown number.
pub data Layout : Type 0 where
  plain_object : Kind → Layout
  with_number with_components : Layout
  with_element : (Quals → YcpType → YcpType) → Layout
  with_two_elements with_result unhandled : Layout

unfoldable pub layout : ℕ → Layout
layout n =
    if n == 0
    then plain_object unspec_t
    else if n == 1
    then plain_object error_t
    else if n == 2
    then plain_object any_t
    else if n == 3
    then plain_object boolean_t
    else if n == 4
    then plain_object byteblock_t
    else if n == 5
    then plain_object float_t
    else if n == 6
    then plain_object integer_t
    else if n == 7
    then plain_object locale_t
    else if n == 8
    then plain_object path_t
    else if n == 9
    then plain_object string_t
    else if n == 10
    then plain_object symbol_t
    else if n == 11
    then plain_object term_t
    else if n == 12
    then plain_object void_t
    else if n == 13
    then plain_object wildcard_t
    else if n == 14
    then plain_object flex_t
    else if n == 15
    then with_element variable
    else if n == 16
    then with_element list
    else if n == 17
    then with_two_elements
    else if n == 18
    then with_element block
    else if n == 19
    then with_components
    else if n == 20
    then with_result
    else if n == 21
    then plain_object nil_t
    else if n == 22
    then with_number
    else unhandled

-- `m_arguments = Bytecode::readType (str)`: a tuple, or the null that the cast of another type to
-- a TupleType pointer gives.
unfoldable pub function_of : Quals → YcpType → YcpType → YcpType
function_of q r (tuple p ts) = function q r p ts
function_of q r _ = function_void q r

-- `none` means that the fuel ran out: the nesting of the types in the stream is not bounded.
-- The loop of the TupleType constructor recurs on its count, and takes the reader as a parameter.
unfoldable pub read_components :
    (Stream → Option (YcpType × Stream)) → ℕ → Stream → Option (YcpTypes × Stream)
read_components reader zero s = some (nil, s)
read_components reader (suc n) s = do
  (t, s') ← reader s
  (ts, s'') ← read_components reader n s'
  some (cons t ts, s'')

unfoldable pub read_result :
    (Stream → Option (YcpType × Stream)) → Quals → Stream → Option (YcpType × Stream)
unfolding function_of
read_result reader q s = do
  (r, s') ← reader s
  let (some_arguments, s'') = read_bool s'
  let with_arguments = reader s'' >>= λ (a, s3). some (function_of q r a, s3)
  if some_arguments then with_arguments else some (function_void q r, s'')

-- The constructors from a stream.
unfoldable pub read_tuple :
    (Stream → Option (YcpType × Stream)) → Stream → Option (YcpType × Stream)
unfolding read_components
read_tuple reader s =
    let (q, s') = read_quals s in
    let (n, s'') = read_int32 s' in
    (read_components reader n s'' >>= λ (ts, s3). some (tuple q ts, s3))

abbrev read_nflex : Stream → Option (YcpType × Stream)
read_nflex s = let (q, s') = read_quals s in let (n, s'') = read_int32 s' in some (nflex q n, s'')

abbrev read_map_type : (Stream → Option (YcpType × Stream)) → Stream → Option (YcpType × Stream)
read_map_type reader s =
    let (q, s') = read_quals s in
    (reader s' >>= λ (k, s1). reader s1 >>= λ (v, s2). some (map q k v, s2))

unfoldable pub read_layout :
    (Stream → Option (YcpType × Stream)) → Layout → Stream → Option (YcpType × Stream)
unfolding read_tuple read_result
read_layout reader (plain_object k) s = let (q, s') = read_quals s in some (base k q, s')
read_layout reader with_number s = read_nflex s
read_layout reader (with_element make) s =
    let (q, s') = read_quals s in (reader s' >>= λ (t, s''). some (make q t, s''))
read_layout reader with_two_elements s = read_map_type reader s
read_layout reader with_components s = read_tuple reader s
read_layout reader with_result s = let (q, s') = read_quals s in read_result reader q s'
-- `Type::Error->clone ()`
read_layout reader unhandled s = some (error_type, s)

unfoldable pub read_type : ℕ → Stream → Option (YcpType × Stream)
unfolding read_layout layout
read_type zero s = none
read_type (suc fuel) s = let (k, s') = read_int32 s in read_layout (read_type fuel) (layout k) s'
