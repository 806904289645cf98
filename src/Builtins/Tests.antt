-- ===== src/Builtins/Tests.antt =====
-- Examples for the builtins.
use yast_core.Prelude.{
  ℕ, ◌≡◌, refl, Bool, true, false, ◌||◌, some, [], ◌∷◌, ◌==◌, ltb, if◌then◌else◌, arith,
}
use yast_core.Prelude.Int.{pos}
use yast_core.Values.Defs.{
  Component, Value, Values, Doubles, null, void, term, path, boolean, integer, string, list, nil,
  cons, Pairs, map, end, entry,
}
use yast_core.Values.Compare.Key.{Ranked}
use yast_core.Values.List.{contains}
use yast_core.Values.Compare.{compare}
use yast_core.Values.Order.{compare_bytes}
use yast_core.Values.Map.{value, has_key}
use yast_core.Values.Map.Laws.{IsSorted}
use yast_core.Builtins.Maps.{m_unionmap}
use yast_core.Builtins.Maps.Union.{m_unionmap-value}
use yast_core.Code.State.{State, set_value}
use yast_core.Code.Outcome.{Outcome, done}
use yast_core.Builtins.Lists.{l_unionlist, l_toset}
use yast_core.Builtins.Lists.Union.{l_unionlist-contains}
use yast_core.Builtins.Lists.Set.{IsAscending, l_toset-IsAscending}
use yast_core.Builtins.Loops.{l_filter, l_find}
use yast_core.Builtins.Loops.Laws.{satisfying, first_of, l_filter-l_find}
use yast_core.Builtins.Split.{l_splitstring, member, s_mergestring}
use yast_core.Builtins.Strings.{
  Wide, is_ascii, s_plus1, s_substring1, s_substring2, s_search, s_removechars, s_filterchars,
}
use yast_core.Builtins.Strings.Chars.{s_removechars-s_filterchars}
use yast_core.Builtins.Strings.Search.{
  IsSearchResult, s_plus1-s_substring2-s_substring1, s_search-IsSearchResult,
}
use yast_core.Builtins.Paths.{p_plus, p_topath}
use yast_core.Builtins.Paths.Text.{p_topath-s_plus3}
use yast_core.Builtins.Terms.{t_size, t_add, t_select, t_remove}
use yast_core.Builtins.Terms.Laws.{t_remove-t_add}
use yast_core.Values.Path.{print_path}
use yast_core.Values.Path.Notation.{IsPath}
use yast_core.Builtins.Strings.{s_plus3}
use yast_core.Prelude.Texts.{codes}
use yast_core.Builtins.Split.RoundTrip.{
  HasPieces, s_mergestring-l_splitstring, l_splitstring-HasPieces,
}

abbrev naturals : Doubles
naturals = record { eq = λ f g. f == g; lt = λ f g. ltb f g }

abbrev ranked_naturals : Ranked naturals
ranked_naturals = record {
  IsNumber = λ f. Unit;
  rank = pos;
  eq_rank = λ f g hf hg. refl;
  lt_rank = λ f g hf hg. refl;
}

abbrev number : ℕ → Value
number n = integer (pos n)

-- `[2, 1, 2]` and `[3]`
abbrev some_numbers : Values
some_numbers = cons (number 2) (cons (number 1) (cons (number 2) nil))

abbrev three : Values
three = cons (number 3) nil

l_unionlist-contains_example :
    (us : Values) × (l_unionlist naturals (list some_numbers) (list three) ≡ list us)
    × (contains naturals us (number 3)
        ≡ contains naturals some_numbers (number 3) || contains naturals three (number 3))
l_unionlist-contains_example =
    l_unionlist-contains naturals ranked_naturals some_numbers three (number 3) (tt, (tt, (tt, tt)))
      (tt, tt) tt

l_toset-IsAscending_example :
    (us : Values) × (l_toset naturals some_numbers ≡ list us)
    × IsAscending naturals ranked_naturals us
    × (contains naturals us (number 2) ≡ contains naturals some_numbers (number 2))
l_toset-IsAscending_example =
    l_toset-IsAscending naturals ranked_naturals some_numbers (number 2) (tt, (tt, (tt, tt))) tt

-- Whether a value is the number 2.
abbrev is_two : Value → Bool
is_two (integer (pos n)) = n == 2
is_two v = false

-- Code that looks at the entry 5.
abbrev looks : State → Outcome
looks t = done (boolean (is_two (t.value_of 5))) t

abbrev start : State
start = record { value_of = λ n. null; stack_of = λ n. []; running = λ b. false; frames = 0 }

looks_lem :
    (v : Value) (t : State) → (u : State) × (looks (set_value 5 v t) ≡ done (boolean (is_two v)) u)
looks_lem null t = (set_value 5 null t, refl)
looks_lem v t = (set_value 5 v t, refl)

l_filter-l_find_example :
    ((u : State) × (l_filter 5 looks some_numbers nil start
        ≡ done (list (satisfying is_two some_numbers)) u))
    × ((u : State) × (l_find 5 looks some_numbers start
          ≡ done (first_of (satisfying is_two some_numbers)) u))
l_filter-l_find_example = l_filter-l_find 5 looks is_two looks_lem some_numbers start

-- "/ab/" and "/"
s_mergestring-l_splitstring_example :
    s_mergestring
      (l_splitstring (string (47 ∷ 97 ∷ 98 ∷ 47 ∷ [])) (string (47 ∷ [])))
      (string (47 ∷ []))
    ≡ some (string (47 ∷ 97 ∷ 98 ∷ 47 ∷ []))
s_mergestring-l_splitstring_example = s_mergestring-l_splitstring (47 ∷ 97 ∷ 98 ∷ 47 ∷ []) 47

l_splitstring-HasPieces_example :
    (vs : Values) × (l_splitstring (string (47 ∷ 97 ∷ 98 ∷ [])) (string (47 ∷ [])) ≡ list vs)
    × HasPieces (47 ∷ []) vs
l_splitstring-HasPieces_example = l_splitstring-HasPieces (47 ∷ 97 ∷ 98 ∷ []) (47 ∷ [])

-- `$[ 1 : true, 3 : true ]` and `$[ 3 : false ]`
abbrev first_map : Pairs
first_map = entry (number 1) (boolean true) (entry (number 3) (boolean true) end)

abbrev second_map : Pairs
second_map = entry (number 3) (boolean false) end

first_map-IsSorted : IsSorted naturals first_map
unfolding compare compare_bytes
first_map-IsSorted = (tt, (tt, refl, tt), (tt, tt, tt))

m_unionmap-value_example :
    (u : Pairs) × (m_unionmap naturals (map first_map) (map second_map) ≡ some (map u))
    × IsSorted naturals u
    × (value naturals (number 3) u ≡ (
        if has_key naturals (number 3) second_map
        then value naturals (number 3) second_map
        else value naturals (number 3) first_map))
m_unionmap-value_example =
    m_unionmap-value naturals first_map second_map (number 3) tt first_map-IsSorted (tt, tt, tt)

abbrev same_width : Wide
same_width = record { widen = λ s. s; narrow = λ s. s }

removechars_test :
    s_removechars same_width (string (codes "a--b-")) (string (codes "-"))
    ≡ some (string (codes "ab"))
unfolding s_removechars
removechars_test = refl

s_removechars-s_filterchars_example :
    (s_removechars same_width (string (codes "abc")) (string (codes "cde"))
      ≡ some (string (codes "ab")))
    × (s_filterchars same_width (string (codes "abc")) (string (codes "cde"))
        ≡ some (string (codes "c")))
unfolding is_ascii member
s_removechars-s_filterchars_example =
    s_removechars-s_filterchars same_width (codes "abc") (codes "cde")

s_plus1-s_substring2-s_substring1_example :
    s_plus1
      (s_substring2 same_width (string (codes "some")) (integer (pos 0)) (integer (pos 3)))
      (s_substring1 same_width (string (codes "some")) (integer (pos 3)))
    ≡ string (codes "some")
unfolding is_ascii
s_plus1-s_substring2-s_substring1_example =
    s_plus1-s_substring2-s_substring1 same_width (codes "some") refl (omega arith) 3 (omega arith)

aaab-is_ascii : is_ascii (codes "aaab") ≡ true
unfolding is_ascii
aaab-is_ascii = refl

ab-is_ascii : is_ascii (codes "ab") ≡ true
unfolding is_ascii
ab-is_ascii = refl

s_search-IsSearchResult_example :
    IsSearchResult same_width
      (codes "aaab")
      aaab-is_ascii
      (omega arith)
      (codes "ab")
      ab-is_ascii
      (omega arith)
      (s_search same_width (string (codes "aaab")) (string (codes "ab")))
s_search-IsSearchResult_example =
    s_search-IsSearchResult same_width (codes "aaab") aaab-is_ascii (omega arith) (codes "ab")
      ab-is_ascii (omega arith)

-- The path `."a"` as its components.
abbrev quoted_a : Component
quoted_a = record { component = codes "a"; complex = true }

quoted_a-IsPath : IsPath (quoted_a ∷ [])
quoted_a-IsPath = (
  record { bytes = (omega arith, tt); no_nul = (omega arith, tt); word = λ p. absurd (cc p) },
  tt,
)

p_topath-s_plus3_example :
    p_topath (s_plus3 (string (print_path (quoted_a ∷ []))) (path (quoted_a ∷ [])))
    ≡ p_plus (path (quoted_a ∷ [])) (path (quoted_a ∷ []))
p_topath-s_plus3_example = p_topath-s_plus3 quoted_a [] quoted_a [] quoted_a-IsPath quoted_a-IsPath

t_remove-t_add_example :
    (t_select
        (t_add (term (codes "f") (cons null nil)) (number 7))
        (t_size (term (codes "f") (cons null nil)))
        void
      ≡ number 7)
    × (t_remove (t_add (term (codes "f") (cons null nil)) (number 7)) (integer (pos 2))
        ≡ some (term (codes "f") (cons null nil)))
t_remove-t_add_example = t_remove-t_add (codes "f") (cons null nil) (number 7) void refl
