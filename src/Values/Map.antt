-- ===== src/Values/Map.antt =====
-- libycp/src/YCPMap.cc: a map from strings, integers and symbols, over an STL map that is ordered
-- by ycp_less. The STL map is its entries in ascending order of their keys.
pub mod Keys
pub mod Laws
pub mod Copy
use yast_core.Prelude.{Bool, true, false, not, ◌||◌, Option, none, some, if◌then◌else◌}
use yast_core.Prelude.Fault.{◌>>=◌}
use yast_core.Values.Order.{YcpOrder, less}
use yast_core.Values.Defs.{
  Value, Pairs, null, map, end, entry, Doubles, is_string, is_integer, is_symbol,
}
use yast_core.Values.Compare.{compare}

abbrev pub is_less : YcpOrder → Bool
is_less less = true
is_less _ = false

-- The test that `add`, `functionalAdd` and `remove` make of a key.
abbrev pub is_key : Value → Bool
is_key v = is_string v || is_integer v || is_symbol v

module _ (doubles : Doubles) where
  -- ycp_less
  abbrev pub ycp_less : Value → Value → Bool
  ycp_less v w = is_less (compare doubles v w)

  -- `lower_bound`, and then the entry there is overwritten if its key is not greater, or a new one
  -- goes in front of it.
  unfoldable pub put : Value → Value → Pairs → Pairs
  put key value end = entry key value end
  put key value (entry k v m) =
      if ycp_less k key
      then entry k v (put key value m)
      else if not (ycp_less key k)
      then entry k value m
      else entry key value (entry k v m)

  -- YCPMapRep::add: a bad key changes nothing; the test of a null key is a fault.
  unfoldable pub add : Value → Value → Pairs → Option Pairs
  unfolding put
  add null value m = none
  add key value m = some (if is_key key then put key value m else m)

  -- `find` of the STL map.
  unfoldable pub find : Value → Pairs → Option Value
  find key end = none
  find key (entry k v m) =
      if ycp_less k key then find key m else if not (ycp_less key k) then some v else none

  -- `erase` by key of the STL map.
  unfoldable pub erase : Value → Pairs → Pairs
  erase key end = end
  erase key (entry k v m) =
      if ycp_less k key
      then entry k v (erase key m)
      else if not (ycp_less key k)
      then m
      else entry k v m

  unfoldable pub remove : Value → Pairs → Option Pairs
  unfolding erase
  remove null m = none
  remove key m = some (if is_key key then erase key m else m)

  unfoldable pub has_key : Value → Pairs → Bool
  unfolding find
  has_key key m = elim (find key m) [ some v ↦ true | none ↦ false ]

  -- YCPMapRep::value: null if there is none.
  unfoldable pub value : Value → Pairs → Value
  unfolding find
  value key m = elim (find key m) [ some v ↦ v | none ↦ null ]

  -- The copying loop of `shallowCopy` and `functionalAdd`: each entry is added to a new map.
  unfoldable pub copy_onto : Pairs → Pairs → Option Pairs
  unfolding add
  copy_onto end new_map = some new_map
  copy_onto (entry k v m) new_map = add k v new_map >>= copy_onto m

  unfoldable pub shallow_copy : Pairs → Option Pairs
  unfolding copy_onto
  shallow_copy m = copy_onto m end

  -- YCPMapRep::functionalAdd: null for a bad key, else a new map.
  unfoldable pub functional_add : Value → Value → Pairs → Option Value
  unfolding copy_onto
  functional_add null v m = none
  functional_add key v m =
      let added = copy_onto m end >>= λ new_map. add key v new_map >>= λ n. some (map n) in
      if is_key key then added else some null
