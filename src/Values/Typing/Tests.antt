-- ===== src/Values/Typing/Tests.antt =====
-- Examples for the types of values.
use yast_core.Prelude.{◌≡◌, refl, some, [], ◌==◌, ltb}
use yast_core.Prelude.Int.{pos, negsuc}
use yast_core.Types.Kind.{integer_t, string_t, any_t}
use yast_core.Types.Defs.{YcpType, plain, base, map as map_type}
use yast_core.Values.Defs.{
  Values, Pairs, Doubles, void, integer, string, map, nil, cons, end, entry,
}
use yast_core.Values.Compare.{compare}
use yast_core.Values.Map.{find}
use yast_core.Values.Typing.{match_value}
use yast_core.Values.Typing.Laws.{match_value-find}

abbrev naturals : Doubles
naturals = record { eq = λ f g. f == g; lt = λ f g. ltb f g }

abbrev integers : YcpType
integers = base integer_t plain

abbrev some_values : Values
some_values = cons (integer (pos 3)) (cons void nil)

abbrev numbered : Pairs
numbered = entry (integer (pos 1)) (integer (pos 8)) (entry (string []) (integer (negsuc 0)) end)

-- `map <string, any>` takes integer keys.
any_map_test :
    match_value (map_type plain (base string_t plain) (base any_t plain)) (map numbered)
    ≡ some (pos 0)
unfolding match_value
any_map_test = refl

match_value-find_example : match_value integers (integer (negsuc 0)) ≡ some (pos 0)
match_value-find_example =
    match_value-find naturals plain (base any_t plain) integers numbered (string [])
      (integer (negsuc 0)) refl refl (unfold match_value in refl) (unfold find compare in refl)
