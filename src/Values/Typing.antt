-- ===== src/Values/Typing.antt =====
-- Type::matchvalue (libycp/src/Type.cc): whether a value is of a static type. The result is the
-- `int` of the source, 0 for a match and -1 for none; `none` is a fault: an object of class Type
-- that carries the kind of a list or a map has no type of its elements. The debug messages, which
-- print the elements, are left out.
mod Tests
pub mod Laws
use yast_core.Prelude.{Bool, ◌||◌, Option, some, if◌then◌else◌}
use yast_core.Prelude.Int.{ℤ, pos, negsuc, is_negative}
use yast_core.Prelude.Fault.{◌>>=◌}
use yast_core.Types.Defs.{
  YcpType, is_any, is_unspec, is_boolean, is_integer, is_float, is_string, is_byteblock, is_path,
  is_symbol, is_term, is_list, is_map, element_of, map_parts,
}
use yast_core.Values.Defs.{
  break_value, return_value, Value, Values, Pairs, null, void, boolean, integer, float, string,
  byteblock, path, symbol, list, term, map, nil, cons, end, entry,
}

-- A value without parts, for the type any and for its own.
abbrev pub verdict : Bool → Option ℤ
verdict b = some (if b then pos 0 else negsuc 0)

-- Behind a part that matches; the loops of the source end at the first that does not.
abbrev pub also : Option ℤ → Option ℤ → Option ℤ
also m n = m >>= λ r. if is_negative r then some (negsuc 0) else n

unfoldable mutual
  pub match_value : YcpType → Value → Option ℤ
  match_value t null = some (negsuc 0)
  match_value t void = some (pos 0)
  match_value t (boolean b) = verdict (is_any t || is_boolean t)
  match_value t (integer i) = verdict (is_any t || is_integer t)
  match_value t (float f) = verdict (is_any t || is_float t)
  match_value t (string s) = verdict (is_any t || is_string t)
  match_value t (byteblock b) = verdict (is_any t || is_byteblock t)
  match_value t (path p) = verdict (is_any t || is_path t)
  match_value t (symbol s) = verdict (is_any t || is_symbol t)
  match_value t (term s vs) = verdict (is_any t || is_term t)
  match_value t break_value = verdict (is_any t)
  match_value t return_value = some (pos 0)
  match_value t (list vs) =
      let by_element = element_of t >>= λ u.
      if is_any u || is_unspec u then some (pos 0) else match_elements u vs in
      if is_any t then some (pos 0) else if is_list t then by_element else some (negsuc 0)
  match_value t (map m) =
      let by_entry = map_parts t >>= λ (k, u).
      if is_any u || is_unspec u then some (pos 0) else match_entries k u m in
      if is_any t then some (pos 0) else if is_map t then by_entry else some (negsuc 0)

  pub match_elements : YcpType → Values → Option ℤ
  match_elements u nil = some (pos 0)
  match_elements u (cons v vs) = also (match_value u v) (match_elements u vs)

  pub match_entries : YcpType → YcpType → Pairs → Option ℤ
  match_entries k u end = some (pos 0)
  match_entries k u (entry key v m) =
      also (match_value k key) (also (match_value u v) (match_entries k u m))
