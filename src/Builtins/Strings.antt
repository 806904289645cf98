-- ===== src/Builtins/Strings.antt =====
-- The builtins of libycp/src/YCPBuiltinString.cc that look into strings. The functions of the C++
-- strings are written out: a position that is `string::npos` is `none`.
pub mod Chars
pub mod Search
use mathlib.Core.Option
use yast_core.Prelude.{
  ℕ, zero, suc, ◌-◌, ◌%◌, ◌^◌, Bool, true, false, not, ◌&&◌, Option, none, some, [], ◌∷◌, ◌++◌,
  Bytes, length, ◌==◌, ltb, if◌then◌else◌,
}
use yast_core.Prelude.Int.{ℤ, pos, negsuc}
use yast_core.Prelude.Fault.{◌>>=◌}
use yast_core.Values.Defs.{Value, null, void, boolean, integer, string, symbol, path}
use yast_core.Values.Path.{print_path}
use yast_core.Builtins.Split.{member}

-- The conversions between UTF-8 and wide characters, utf82wchar and wchar2utf8, on top of iconv.
pub record Wide : Type 0 where
  pub widen : Bytes → Bytes
  pub narrow : Bytes → Bytes

unfoldable pub is_ascii : Bytes → Bool
is_ascii [] = true
is_ascii (c ∷ s) = ltb c 128 && is_ascii s

abbrev pub both_ascii : Bytes → Bytes → Bool
both_ascii s t = is_ascii s && is_ascii t

-- A cast of a `long long` to size_type.
unfoldable pub size_type : ℤ → ℕ
size_type (pos n) = n % 2 ^ 64
size_type (negsuc n) = (2 ^ 64 - 1 - n % 2 ^ 64) % 2 ^ 64

-- The first position from `start` on whose character satisfies `p`, and the last one.
unfoldable pub find_if : (ℕ → Bool) → Bytes → ℕ → Option ℕ
find_if p [] start = none
find_if p (c ∷ s) zero = elim (p c) [ true ↦ some 0 | false ↦ Option.map suc (find_if p s zero) ]
find_if p (c ∷ s) (suc start) = Option.map suc (find_if p s start)

unfoldable pub find_last_if : (ℕ → Bool) → Bytes → Option ℕ
find_last_if p [] = none
find_last_if p (c ∷ s) = elim (find_last_if p s) [
  | some i ↦ some (suc i)
  | none ↦ if p c then some 0 else none
]

unfoldable pub starts_with : Bytes → Bytes → Bool
starts_with [] s = true
starts_with (c ∷ sub) [] = false
starts_with (c ∷ sub) (d ∷ s) = c == d && starts_with sub s

-- `string::find`.
unfoldable pub find_text : Bytes → Bytes → Option ℕ
unfolding starts_with
find_text sub [] = if starts_with sub [] then some 0 else none
find_text sub (c ∷ s) = if starts_with sub (c ∷ s) then some 0 else Option.map suc (find_text sub s)

-- `erase` of a number of characters, or of all, from a position on.
unfoldable pub erase : Bytes → ℕ → Option ℕ → Bytes
erase [] start count = []
erase (c ∷ s) (suc start) count = c ∷ erase s start count
erase (c ∷ s) zero none = []
erase (c ∷ s) zero (some zero) = c ∷ s
erase (c ∷ s) zero (some (suc n)) = erase s zero (some n)

unfoldable pub take : ℕ → Bytes → Bytes
take zero s = []
take (suc n) [] = []
take (suc n) (c ∷ s) = c ∷ take n s

unfoldable pub drop : ℕ → Bytes → Bytes
drop zero s = s
drop (suc n) [] = []
drop (suc n) (c ∷ s) = drop n s

-- The loops of deletechars and filterchars, on fuel: erase from each character that satisfies `p` up
-- to the next one that does not. `npos - pos` counts further than the string goes.
abbrev pub run_length : Option ℕ → ℕ → Option ℕ
run_length none start = none
run_length (some r) start = some (r - start)

unfoldable pub erase_from :
    (ℕ → Bool) → (Bytes → ℕ → Option Bytes) → Bytes → Option ℕ → Option Bytes
unfolding find_if erase
erase_from p again s none = some s
erase_from p again s (some i) = again (erase s i (run_length (find_if (λ c. not (p c)) s i) i)) i

unfoldable pub erase_loop : (ℕ → Bool) → ℕ → Bytes → ℕ → Option Bytes
unfolding erase_from find_if
erase_loop p zero s start = none
erase_loop p (suc f) s start = erase_from p (erase_loop p f) s (find_if p s start)

-- The result of a search: nil if there is no such position.
abbrev pub position : Option ℕ → Value
position none = void
position (some i) = integer (pos i)

-- The parts of the positions are those of the C++ `substr`, which is called inside the string only.
abbrev pub part : Bytes → ℕ → Option ℕ → Option Bytes
part s start count =
    if ltb (length s) start
    then none
    else some (elim count [ none ↦ drop start s | some n ↦ take n (drop start s) ])

unfoldable pub s_plus1 : Value → Value → Value
s_plus1 (string s) (string t) = string (s ++ t)
s_plus1 v w = null

unfoldable pub s_plus3 : Value → Value → Value
s_plus3 (string s) (path p) = string (s ++ print_path p)
s_plus3 v w = null

unfoldable pub s_plus4 : Value → Value → Value
s_plus4 (string s) (symbol t) = string (s ++ t)
s_plus4 v w = null

unfoldable pub s_issubstring : Value → Value → Value
unfolding find_text
s_issubstring (string s) (string sub) =
    boolean (elim (find_text sub s) [ none ↦ false | some i ↦ true ])
s_issubstring v w = null

-- The loop of toascii, which moves the ASCII characters to the front.
unfoldable pub ascii_only : Bytes → Bytes
ascii_only [] = []
ascii_only (c ∷ s) = let rest = ascii_only s in if ltb c 128 then c ∷ rest else rest

unfoldable pub s_toascii : Value → Value
unfolding ascii_only
s_toascii (string s) = string (ascii_only s)
s_toascii v = null

-- ASCII strings are taken by bytes, and others by wide characters.
module _ (wide : Wide) where
  abbrev pub chars : Bool → Bytes → Bytes
  chars ascii s = if ascii then s else wide.widen s

  abbrev pub text : Bool → Bytes → Value
  text ascii s = string (if ascii then s else wide.narrow s)

  unfoldable pub s_size : Value → Value
  unfolding is_ascii
  s_size (string s) = integer (pos (length (chars (is_ascii s) s)))
  s_size v = null

  abbrev pub or_empty : Bool → Option Bytes → Value
  or_empty ascii none = string []
  or_empty ascii (some s) = text ascii s

  unfoldable pub s_substring1 : Value → Value → Value
  unfolding is_ascii size_type take drop
  s_substring1 (string s) (integer i) =
      or_empty (is_ascii s) (part (chars (is_ascii s) s) (size_type i) none)
  s_substring1 v w = null

  unfoldable pub s_substring2 : Value → Value → Value → Value
  unfolding is_ascii size_type take drop
  s_substring2 (string s) (integer i) (integer n) =
      or_empty (is_ascii s) (part (chars (is_ascii s) s) (size_type i) (some (size_type n)))
  s_substring2 v w u = null

  unfoldable pub s_search : Value → Value → Value
  unfolding is_ascii find_text
  s_search (string s) (string sub) =
      let ascii = both_ascii s sub in position (find_text (chars ascii sub) (chars ascii s))
  s_search v w = null

  -- `-1` in place of nil.
  abbrev pub or_minus_one : Value → Value
  or_minus_one void = integer (negsuc 0)
  or_minus_one v = v

  unfoldable pub s_find : Value → Value → Value
  unfolding s_search
  s_find v w = or_minus_one (s_search v w)

  abbrev pub erased : Bool → Option Bytes → Option Value
  erased ascii o = o >>= λ s. some (text ascii s)

  unfoldable pub s_removechars : Value → Value → Option Value
  unfolding is_ascii erase_loop member
  s_removechars (string s) (string r) =
      let ascii = both_ascii s r in
      let cs = chars ascii s in
      erased ascii (erase_loop (λ c. member c (chars ascii r)) (suc (length cs)) cs 0)
  s_removechars v w = some null

  unfoldable pub s_filterchars : Value → Value → Option Value
  unfolding is_ascii erase_loop member
  s_filterchars (string s) (string i) =
      let ascii = both_ascii s i in
      let cs = chars ascii s in
      erased ascii (erase_loop (λ c. not (member c (chars ascii i))) (suc (length cs)) cs 0)
  s_filterchars v w = some null

  -- findfirstof, findfirstnotof, findlastof and findlastnotof.
  unfoldable pub s_findfirstof : Value → Value → Value
  unfolding is_ascii find_if member
  s_findfirstof (string s) (string t) =
      let ascii = both_ascii s t in
      position (find_if (λ c. member c (chars ascii t)) (chars ascii s) 0)
  s_findfirstof v w = null

  unfoldable pub s_findfirstnotof : Value → Value → Value
  unfolding is_ascii find_if member
  s_findfirstnotof (string []) (string t) = integer (pos 0)
  s_findfirstnotof (string s) (string t) =
      let ascii = both_ascii s t in
      position (find_if (λ c. not (member c (chars ascii t))) (chars ascii s) 0)
  s_findfirstnotof v w = null

  unfoldable pub s_findlastof : Value → Value → Value
  unfolding is_ascii find_last_if member
  s_findlastof (string s) (string t) =
      let ascii = both_ascii s t in
      position (find_last_if (λ c. member c (chars ascii t)) (chars ascii s))
  s_findlastof v w = null

  unfoldable pub s_findlastnotof : Value → Value → Value
  unfolding is_ascii find_last_if member
  s_findlastnotof (string s) (string t) =
      let ascii = both_ascii s t in
      position (find_last_if (λ c. not (member c (chars ascii t))) (chars ascii s))
  s_findlastnotof v w = null
