-- ===== src/Values/Path.antt =====
-- libycp/src/YCPPath.cc: paths as lists of components, their notation and its parser. The C
-- functions isprint, isdigit and isxdigit are those of the C locale.
pub mod Notation
pub mod Steps
use yast_core.Prelude.{
  ℕ, zero, suc, ◌+◌, ◌*◌, ◌/◌, ◌%◌, ◌-◌, Bool, true, false, not, ◌&&◌, ◌||◌, Option, none, some, [],
  ◌∷◌, ◌++◌, Bytes, ◌==◌, ltb, leb, if◌then◌else◌,
}
use yast_core.Prelude.Fault.{◌>>=◌}
use yast_core.Bytecode.Text.{c_str}
use yast_core.Values.Defs.{Component, Components}

abbrev pub backslash : ℕ
backslash = 92

abbrev pub quote : ℕ
quote = 34

abbrev pub dot_char : ℕ
dot_char = 46

abbrev pub dash : ℕ
dash = 45

unfoldable pub is_digit : ℕ → Bool
is_digit c = leb 48 c && leb c 57

unfoldable pub is_upper_hex : ℕ → Bool
is_upper_hex c = leb 65 c && leb c 70

unfoldable pub is_lower_hex : ℕ → Bool
is_lower_hex c = leb 97 c && leb c 102

unfoldable pub is_xdigit : ℕ → Bool
unfolding is_digit is_upper_hex is_lower_hex
is_xdigit c = is_digit c || is_upper_hex c || is_lower_hex c

-- `isdigit (c) ? c - '0' : isupper (c) ? c - 'A' + 10 : c - 'a' + 10`
unfoldable pub hex_value : ℕ → ℕ
unfolding is_digit is_upper_hex
hex_value c = if is_digit c then c - 48 else if is_upper_hex c then c - 55 else c - 87

unfoldable pub is_print : ℕ → Bool
is_print c = leb 32 c && leb c 126

-- The characters of a component that needs no quotes: 0-9, a-z, A-Z, _ and -.
unfoldable pub is_simple : ℕ → Bool
unfolding is_digit
is_simple c =
    is_digit c || (leb 97 c && leb c 122) || (leb 65 c && leb c 90) || c == 95 || c == dash

-- The hexadecimal number behind `\x`, and how many characters it takes: two digits, one or none.
unfoldable pub hex_escape : Bytes → ℕ × ℕ
hex_escape [] = (0, 0)
hex_escape (h ∷ []) = if is_xdigit h then (hex_value h, 1) else (0, 0)
hex_escape (h ∷ l ∷ _) =
    if is_xdigit h && is_xdigit l
    then (16 * hex_value h + hex_value l, 2)
    else if is_xdigit h
    then (hex_value h, 1)
    else (0, 0)

-- What follows a backslash: the character that it stands for and the characters that it takes.
unfoldable pub escape_at : Bytes → ℕ × ℕ
escape_at [] = (0, 0)
escape_at (c ∷ r) =
    if c == b'n'
    then (10, 1)
    else if c == b't'
    then (9, 1)
    else if c == b'r'
    then (13, 1)
    else if c == b'b'
    then (8, 1)
    else if c == b'f'
    then (12, 1)
    else if c == b'x'
    then (let (n, taken) = hex_escape r in (n, suc taken))
    else (c, 1)

abbrev is_empty : Bytes → Bool
is_empty [] = true
is_empty _ = false

-- The loop of Component::Component over a quoted text behind its first quote. `skip` is how far
-- the pointer has been moved on. `none`: a backslash at the end, where the constructor returns.
unfoldable pub unescape : ℕ → Bytes → Option Bytes
unescape skip [] = some []
unescape (suc skip) (c ∷ r) = unescape skip r
unescape zero (c ∷ r) =
    let plain = unescape 0 r >>= λ t. some (c ∷ t) in
    let escaped = unescape (escape_at r).1 r >>= λ t. some ((escape_at r).0 ∷ t) in
    if c == backslash
    then (if is_empty r then none else escaped)
    else if c == quote
    then some []
    else plain

unfoldable pub all_simple : Bytes → Bool
unfolding is_simple
all_simple [] = true
all_simple (c ∷ r) = is_simple c && all_simple r

abbrev or_nothing : Option Bytes → Bytes
or_nothing none = []
or_nothing (some t) = t

-- Component::Component (string).
unfoldable pub component_of : Bytes → Component
component_of [] = record { component = []; complex = false }
component_of (c ∷ r) =
    if c == quote
    then record { component = or_nothing (unescape 0 r); complex = true }
    else record { component = c ∷ r; complex = not (all_simple (c ∷ r)) }

-- The states of YCPPathRep::YCPPathRep (const char *), with the text from `start` on. `escaped` is
-- the complex state when the pointer has been moved over a backslash.
pub data ParseState : Type 0 where
  dot complex_first : ParseState
  simple complex escaped : Bytes → ParseState

unfoldable pub starts_quoted : Bytes → Bool
starts_quoted [] = false
starts_quoted (c ∷ r) = c == quote

unfoldable pub ends_simple : Bytes → Bool
ends_simple [] = true
ends_simple (c ∷ r) = c == dot_char

abbrev pub starts_with_dash : Bytes → Bool
starts_with_dash [] = false
starts_with_dash (c ∷ r) = c == dash

-- A dash at either end of a simple component clears the path. (A backslash as the last character
-- makes the loop run over the terminating NUL, which C++ leaves undefined; the model ends there.)
unfoldable pub scan : ParseState → Components → Bytes → Components
scan state cs [] = cs
scan dot cs (c ∷ r) = scan (if starts_quoted r then complex_first else simple []) cs r
scan (simple text) cs (c ∷ r) =
    let pushed = scan dot (cs ++ component_of (text ++ c ∷ []) ∷ []) r in
    let longer = scan (simple (text ++ c ∷ [])) cs r in
    if ends_simple r
    then (if starts_with_dash (text ++ c ∷ []) || c == dash then [] else pushed)
    else longer
scan complex_first cs (c ∷ r) = scan (complex (c ∷ [])) cs r
scan (complex text) cs (c ∷ r) =
    let skipped = scan (escaped (text ++ c ∷ [])) cs r in
    let pushed = scan dot (cs ++ component_of (text ++ c ∷ []) ∷ []) r in
    let longer = scan (complex (text ++ c ∷ [])) cs r in
    if c == backslash then skipped else if c == quote then pushed else longer
scan (escaped text) cs (c ∷ r) = scan (complex (text ++ c ∷ [])) cs r

-- `strcmp (r, ".") == 0`
abbrev pub is_root_text : Bytes → Bool
is_root_text (c ∷ []) = c == dot_char
is_root_text _ = false

unfoldable pub parse_path : Bytes → Components
parse_path r = if is_root_text r then [] else scan dot [] r

-- `%X` of one digit.
unfoldable pub hex_digit : ℕ → ℕ
hex_digit d = if ltb d 10 then d + 48 else d + 55

-- How Component::toString writes one character.
unfoldable pub escape : ℕ → Bytes
escape c =
    if c == quote
    then backslash ∷ quote ∷ []
    else if c == backslash
    then backslash ∷ backslash ∷ []
    else if c == 10
    then backslash ∷ b'n' ∷ []
    else if c == 9
    then backslash ∷ b't' ∷ []
    else if c == 13
    then backslash ∷ b'r' ∷ []
    else if c == 8
    then backslash ∷ b'b' ∷ []
    else if c == 12
    then backslash ∷ b'f' ∷ []
    else if is_print c
    then c ∷ []
    else backslash ∷ b'x' ∷ hex_digit (c / 16) ∷ hex_digit (c % 16) ∷ []

unfoldable pub escape_all : Bytes → Bytes
escape_all [] = []
escape_all (c ∷ r) = escape c ++ escape_all r

-- Component::toString; the loop over a complex component ends at a NUL.
unfoldable pub print_component : Component → Bytes
print_component c =
    if c.complex then quote ∷ (escape_all (c_str c.component) ++ quote ∷ []) else c.component

unfoldable pub print_components : Components → Bytes
print_components [] = []
print_components (c ∷ cs) = dot_char ∷ (print_component c ++ print_components cs)

-- YCPPathRep::toString.
unfoldable pub print_path : Components → Bytes
print_path [] = dot_char ∷ []
print_path (c ∷ cs) = print_components (c ∷ cs)
