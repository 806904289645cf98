-- ===== src/Types/Tests.antt =====
-- Examples for the static types.
use yast_core.Prelude.{◌≡◌, ◌≢◌, refl, true, false, some, [], ◌++◌, arith}
use yast_core.Prelude.Int.{pos}
use yast_core.Bytecode.Stream.{live}
use yast_core.Types.Kind.{integer_t, string_t, wildcard_t, float_t}
use yast_core.Types.Defs.{Quals, plain, YcpType, base, flex, nflex, list, map, function, nil, cons}
use yast_core.Types.Match.{match, match_base}
use yast_core.Types.Match.Laws.{match_refl, match-surplus}
use yast_core.Types.Flex.{substitute, unflex}
use yast_core.Types.Flex.Laws.{Cleared, unflex-FlexesIn}
use yast_core.Types.Stream.{write_type, read_type}
use yast_core.Types.Stream.RoundTrip.{reread, depth, read_type-write_type}

abbrev an_integer : YcpType
an_integer = base integer_t plain

abbrev a_string : YcpType
a_string = base string_t plain

abbrev as_const : Quals
as_const = record { is_const = true; is_reference = false }

-- `map <string, list <const integer>>`
abbrev a_map : YcpType
a_map = map plain a_string (list plain (base integer_t as_const))

-- `integer (string, map <...>)`
abbrev a_function : YcpType
a_function = function plain an_integer plain (cons a_string (cons a_map nil))

match_test : match an_integer (base float_t plain) ≡ some (pos 2)
unfolding match match_base
match_test = refl

unflex_test :
    unflex (list plain (flex as_const)) an_integer 0 ≡ some (list plain (base integer_t as_const))
unfolding unflex substitute
unflex_test = refl

match_refl_example : match a_function a_function ≡ some (pos 0)
match_refl_example =
    match_refl a_function (omega arith, (λ e. cc), ((λ e. cc), (((λ e. cc), (λ e. cc)), tt)))

match-surplus_example :
    match a_function (function plain an_integer plain (cons (base wildcard_t plain) nil))
    ≢ some (pos 0)
match-surplus_example =
    match-surplus plain plain plain plain an_integer an_integer (cons a_string (cons a_map nil))
      (cons (base wildcard_t plain) nil) (omega arith)

-- `flex (list <flex2>)`
abbrev two_flexes : YcpType
two_flexes = function plain (flex as_const) plain (cons (list plain (nflex plain 2)) nil)

unflex-FlexesIn_example : Cleared (λ n. n ≡ 2) (unflex two_flexes a_map 0)
unflex-FlexesIn_example =
    unflex-FlexesIn (λ n. n ≡ 2) a_map 0 two_flexes (refl, refl) (tt, (tt, tt))
      (λ h. absurd (h refl), (λ h. refl, tt))

read_type-write_type_example :
    read_type 5 (live (write_type a_function ++ []) 0) ≡ some (a_function, live [] 0)
unfolding reread
read_type-write_type_example =
    read_type-write_type a_function 5 [] 0 (tt, (tt, ((tt, tt), tt)), omega arith)
      (unfold depth in omega arith)
