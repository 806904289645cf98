-- ===== src/Values/Tests.antt =====
-- Examples for the values.
use yast_core.Prelude.{
  ℕ, ◌+◌, ◌-◌, ◌≡◌, refl, true, false, none, some, Bytes, [], ◌∷◌, ◌++◌, ◌==◌, ltb, arith,
  if◌then◌else◌,
}
use yast_core.Prelude.Int.{pos, negsuc}
use yast_core.Prelude.Fault.{◌>>=◌}
use yast_core.Bytecode.Stream.{live}
use yast_core.Bytecode.Text.{IsText, c_str}
use yast_core.Values.Order.{less, flip}
use yast_core.Values.Defs.{
  Components, Value, Pairs, void, boolean, integer, float, string, path, list, term, map, nil, cons,
  end, entry, Doubles,
}
use yast_core.Values.Compare.{compare}
use yast_core.Values.Compare.Tree.{order}
use yast_core.Values.Compare.Key.{key, Ranked}
use yast_core.Values.Compare.Laws.{compare-key, compare-flip, compare_trans}
use yast_core.Values.List.{value as list_value}
use yast_core.Values.Map.{put, add, remove, has_key, value}
use yast_core.Values.Map.Laws.{IsSorted, add-IsSorted, value-add, has_key-remove, is_equal}
use yast_core.Values.Path.{
  is_simple, all_simple, escape, escape_all, is_print, print_component, print_components,
  parse_path, print_path,
}
use yast_core.Values.Path.Notation.{AreBytes, IsPath, parse_path-print_path}
use yast_core.Values.Stream.{
  DoubleText, looks_real, print_float, parse_float, write_value, read_value, reserve,
}
use yast_core.Values.Stream.RoundTrip.{IsWritable, depth, read_value-write_value}

-- Doubles that are small natural numbers, and one digit as their text.
abbrev naturals : Doubles
naturals = record { eq = λ f g. f == g; lt = λ f g. ltb f g }

abbrev ranked_naturals : Ranked naturals
ranked_naturals = record {
  IsNumber = λ f. Unit;
  rank = pos;
  eq_rank = λ f g hf hg. refl;
  lt_rank = λ f g hf hg. refl;
}

abbrev first : Bytes → ℕ
first [] = 0
first (c ∷ cs) = c - 48

abbrev digits : DoubleText
digits = record {
  is_whole = λ f. false;
  is_below_100000 = λ f. true;
  format = λ f. (48 + f) ∷ [];
  strtol = λ s. (first s, []);
  atof = first;
}

abbrev word : Bytes
word = 97 ∷ 98 ∷ []

-- `["ab", 5]` and `["ab", 7]`
abbrev five : Value
five = list (cons (string word) (cons (integer (pos 5)) nil))

abbrev seven : Value
seven = list (cons (string word) (cons (integer (pos 7)) nil))

abbrev nine : Value
nine = list (cons (string word) (cons (integer (pos 9)) nil))

-- `$[ 1 : true, "ab" : 2.0 ]`
abbrev a_map : Pairs
a_map = entry (integer (pos 1)) (boolean true) (entry (string word) (float 2) end)

compare_test : compare naturals five seven ≡ less
unfolding compare
compare_test = refl

a_map-IsSorted : IsSorted naturals a_map
unfolding compare
a_map-IsSorted = (tt, (tt, refl, tt), (tt, tt, tt))

compare-key_example :
    compare naturals five seven
    ≡ order (key naturals ranked_naturals five) (key naturals ranked_naturals seven)
compare-key_example = compare-key naturals ranked_naturals five seven (tt, (tt, tt)) (tt, (tt, tt))

compare-flip_example : compare naturals seven five ≡ flip (compare naturals five seven)
compare-flip_example =
    compare-flip naturals ranked_naturals five seven (tt, (tt, tt)) (tt, (tt, tt))

compare_trans_example : compare naturals five nine ≡ less
compare_trans_example =
    compare_trans naturals ranked_naturals five seven nine (tt, (tt, tt)) (tt, (tt, tt))
      (tt, (tt, tt)) (unfold compare in refl) (unfold compare in refl)

add-IsSorted_example :
    IsSorted naturals (entry (integer (pos 1)) void (entry (string word) (float 2) end))
add-IsSorted_example =
    add-IsSorted naturals (integer (pos 1)) void a_map
      (entry (integer (pos 1)) void (entry (string word) (float 2) end)) a_map-IsSorted
      (unfold add put compare in refl)

value-add_example :
    (add naturals (integer (pos 1)) void a_map >>= λ n. some (value naturals (string word) n))
    ≡ some (
        if is_equal (compare naturals (string word) (integer (pos 1)))
        then void
        else value naturals (string word) a_map)
value-add_example =
    value-add naturals (string word) (integer (pos 1)) void a_map tt tt a_map-IsSorted

has_key-remove_example :
    (remove naturals (string word) a_map >>= λ n. some (has_key naturals (string word) n))
    ≡ some (
        if is_equal (compare naturals (string word) (string word))
        then false
        else has_key naturals (string word) a_map)
has_key-remove_example =
    has_key-remove naturals (string word) (string word) a_map tt tt a_map-IsSorted

-- `.ab."."`
abbrev a_path : Components
a_path =
    record { component = word; complex = false }
    ∷ record { component = 46 ∷ []; complex = true }
    ∷ []

word-AreBytes : AreBytes word
word-AreBytes = (omega arith, (omega arith, tt))

word-IsText : IsText word
word-IsText = (omega arith, (omega arith, tt))

a_path-IsPath : IsPath a_path
unfolding all_simple is_simple
a_path-IsPath = (
  record { bytes = word-AreBytes; no_nul = word-IsText; word = λ h. ((λ e. cc), refl, refl, refl) },
  (record { bytes = (omega arith, tt); no_nul = (omega arith, tt); word = λ h. absurd cc }, tt),
)

parse_path-print_path_example : parse_path (print_path a_path) ≡ a_path
parse_path-print_path_example = parse_path-print_path a_path a_path-IsPath

-- `[ $[ 1 : true, "ab" : 2.0 ], .ab.".", `ab (-1) ]`
abbrev a_value : Value
a_value =
    list
      (cons (map a_map) (cons (path a_path) (cons (term word (cons (integer (negsuc 0)) nil)) nil)))

print_test : print_path a_path ≡ 46 ∷ 97 ∷ 98 ∷ 46 ∷ 34 ∷ 46 ∷ 34 ∷ []
unfolding print_path print_components print_component escape_all escape is_print c_str
print_test = refl

a_value-IsWritable : IsWritable naturals digits a_value
unfolding print_path print_components print_component escape_all escape is_print c_str print_float
    parse_float looks_real
a_value-IsWritable = (
  omega arith,
  (
    (
      omega arith,
      a_map-IsSorted,
      (omega arith, tt, ((word-IsText, omega arith), (((omega arith, tt), omega arith), refl), tt)),
    ),
    (
      (
        a_path-IsPath,
        (
          (
            omega arith,
            (
              omega arith,
              (omega arith, (omega arith, (omega arith, (omega arith, (omega arith, tt))))),
            ),
          ),
          omega arith,
        ),
      ),
      (((word-IsText, omega arith), omega arith, omega arith, (omega arith, tt)), tt),
    ),
  ),
)

read_value-write_value_example :
    read_value naturals digits 3 (live ((write_value digits a_value).0 ++ []) 0)
    ≡ some (a_value, live [] 0)
read_value-write_value_example =
    read_value-write_value naturals digits a_value 3 [] 0 a_value-IsWritable
      (unfold depth in omega arith)

reserve_throws : reserve 2147483648 ≡ none
unfolding reserve
reserve_throws = refl
