-- ===== src/Values/Compare.antt =====
-- YCPValueRep::compare, without regard to the locale, and the compare methods of the value classes
-- that it calls.
pub mod Tree
pub mod Key
pub mod Laws
use yast_core.Prelude.{ℕ, Bool, true, false, [], ◌∷◌, Bytes, length, ltb, if◌then◌else◌}
use yast_core.Values.Order.{
  YcpOrder, less, equal, greater, fault, and_then, compare_int, compare_size, compare_bytes,
}
use yast_core.Values.Defs.{
  break_value, return_value, Components, Value, Values, Pairs, null, void, boolean, integer, float,
  string, byteblock, path, symbol, list, term, map, nil, cons, entry, valuetype, map_size, Doubles,
}

abbrev pub of_bool : Bool → ℕ
of_bool true = 1
of_bool false = 0

-- YCPByteblockRep::compare: sizes first.
unfoldable pub compare_byteblock : Bytes → Bytes → YcpOrder
unfolding compare_bytes
compare_byteblock a b = and_then (compare_size (length a) (length b)) (compare_bytes a b)

-- YCPPathRep::compare: component by component, by their texts.
unfoldable pub compare_path : Components → Components → YcpOrder
unfolding compare_bytes
compare_path [] [] = equal
compare_path [] (d ∷ ds) = less
compare_path (c ∷ cs) [] = greater
compare_path (c ∷ cs) (d ∷ ds) =
    and_then (compare_bytes c.component d.component) (compare_path cs ds)

module _ (doubles : Doubles) where
  -- YCPFloatRep::compare.
  abbrev pub compare_float : ℕ → ℕ → YcpOrder
  compare_float f g = if doubles.eq f g then equal else if doubles.lt f g then less else greater

  unfoldable mutual
    unfolding compare_byteblock compare_path compare_bytes

    pub compare : Value → Value → YcpOrder
    compare null w = fault
    compare v null = equal
    compare void void = equal
    compare (boolean a) (boolean b) = compare_size (of_bool a) (of_bool b)
    compare (integer i) (integer j) = compare_int i j
    compare (float f) (float g) = compare_float f g
    compare (string s) (string t) = compare_bytes s t
    compare (byteblock a) (byteblock b) = compare_byteblock a b
    compare (path p) (path q) = compare_path p q
    compare (symbol s) (symbol t) = compare_bytes s t
    compare (list vs) (list ws) = compare_list vs ws
    compare (term s vs) (term t ws) = and_then (compare_bytes s t) (compare_list vs ws)
    compare (map m) (map n) = and_then (compare_size (map_size m) (map_size n)) (compare_pairs m n)
    compare break_value break_value = equal
    compare return_value return_value = equal
    compare v w = if ltb (valuetype v) (valuetype w) then less else greater

    -- YCPListRep::compare: an empty list is less, and so is a proper prefix.
    pub compare_list : Values → Values → YcpOrder
    compare_list nil nil = equal
    compare_list nil (cons w ws) = less
    compare_list (cons v vs) nil = greater
    compare_list (cons v vs) (cons w ws) = and_then (compare v w) (compare_list vs ws)

    -- The pairwise loop of YCPMapRep::compare, which ends with either map.
    pub compare_pairs : Pairs → Pairs → YcpOrder
    compare_pairs (entry k v m) (entry l w n) =
        and_then (compare k l) (and_then (compare v w) (compare_pairs m n))
    compare_pairs _ _ = equal
