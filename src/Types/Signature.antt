-- ===== src/Types/Signature.antt =====
-- Type::nextToken and Type::fromSignature (libycp/src/TypeStatics.cc): the parser of the type
-- signatures of builtins. A C string is the bytes before its NUL. The C functions isspace, isdigit
-- and strncasecmp are those of the C locale.
pub mod Ends
pub mod Parts
pub mod Notation
pub mod RoundTrip
mod Tests
use yast_core.Prelude.{
  ℕ, zero, suc, ◌+◌, ◌-◌, ◌*◌, Bool, true, false, ◌&&◌, ◌||◌, Option, none, some, List, [], ◌∷◌,
  Bytes, ◌==◌, leb, if◌then◌else◌,
}
use yast_core.Prelude.Texts.{codes}
use yast_core.Types.Kind.{
  Kind, unspec_t, error_t, any_t, boolean_t, byteblock_t, float_t, integer_t, locale_t, path_t,
  string_t, symbol_t, term_t, void_t, wildcard_t, flex_t, variable_t, list_t, map_t, block_t,
  tuple_t,
}
use yast_core.Types.Defs.{
  Quals, plain, YcpType, base, flex, nflex, variable, list, map, block, tuple, function_void,
  function, nil, cons, concat, set_quals, is_const,
}
use yast_core.Types.Flex.{clone}

unfoldable pub is_space : ℕ → Bool
is_space c = c == 32 || (leb 9 c && leb c 13)

unfoldable pub is_digit : ℕ → Bool
is_digit c = leb 48 c && leb c 57

unfoldable pub to_lower : ℕ → ℕ
to_lower c = if leb 65 c && leb c 90 then c + 32 else c

unfoldable pub skip_spaces : Bytes → Bytes
unfolding is_space
skip_spaces [] = []
skip_spaces (c ∷ s) = let rest = skip_spaces s in if is_space c then rest else c ∷ s

-- The `int` of nextToken: a kind, -1, -100 - n, or a character.
pub data Token : Type 0 where
  kind_token : Kind → Token
  const_token : Token
  nflex_token : ℕ → Token
  sign_token : ℕ → Token

-- strncasecmp with a word in lower case: what is behind the word.
unfoldable pub behind_word : Bytes → Bytes → Option Bytes
unfolding to_lower
behind_word [] s = some s
behind_word (w ∷ word) [] = none
behind_word (w ∷ word) (c ∷ s) =
    let rest = behind_word word s in if to_lower c == w then rest else none

-- The words that begin with a character, in the order of the tests.
abbrev pub word_table : List (ℕ × List (Bytes × Token))
word_table =
    (b'a', (codes "any", kind_token any_t) ∷ [])
    ∷ (
      b'b',
      (codes "boolean", kind_token boolean_t)
          ∷ (codes "byteblock", kind_token byteblock_t)
          ∷ (codes "block", kind_token block_t)
          ∷ [],
    )
    ∷ (b'c', (codes "const", const_token) ∷ [])
    ∷ (b'f', (codes "float", kind_token float_t) ∷ (codes "flex", kind_token flex_t) ∷ [])
    ∷ (b'i', (codes "integer", kind_token integer_t) ∷ [])
    ∷ (b'l', (codes "list", kind_token list_t) ∷ (codes "locale", kind_token locale_t) ∷ [])
    ∷ (b'm', (codes "map", kind_token map_t) ∷ [])
    ∷ (b'p', (codes "path", kind_token path_t) ∷ [])
    ∷ (b's', (codes "string", kind_token string_t) ∷ (codes "symbol", kind_token symbol_t) ∷ [])
    ∷ (b't', (codes "term", kind_token term_t) ∷ (codes "tuple", kind_token tuple_t) ∷ [])
    ∷ (b'v', (codes "void", kind_token void_t) ∷ (codes "variable", kind_token variable_t) ∷ [])
    ∷ (b'.', (codes "...", kind_token wildcard_t) ∷ [])
    ∷ []

unfoldable pub words : List (ℕ × List (Bytes × Token)) → ℕ → List (Bytes × Token)
words [] c = []
words ((d, ws) ∷ table) c = if c == d then ws else words table c

-- The first word that the text begins with; none leaves the text and gives UnspecT.
unfoldable pub find_word : List (Bytes × Token) → Bytes → Token × Bytes
unfolding behind_word
find_word [] s = (kind_token unspec_t, s)
find_word ((word, k) ∷ ws) s = elim (behind_word word s) [
  | some rest ↦ (k, rest)
  | none ↦ find_word ws s
]

unfoldable pub is_sign : ℕ → Bool
is_sign c = c == b'&' || c == b'<' || c == b'>' || c == b',' || c == b'(' || c == b')'

-- The number behind `flex`.
unfoldable pub digits : ℕ → Bytes → ℕ × Bytes
unfolding is_digit
digits n [] = (n, [])
digits n (c ∷ s) =
    let more = digits (n * 10 + (c - 48)) s in if is_digit c then more else (n, c ∷ s)

unfoldable pub flex_number : ℕ × Bytes → Token × Bytes
flex_number (zero, s) = (kind_token flex_t, s)
flex_number (suc n, s) = (nflex_token (suc n), s)

unfoldable pub with_number : Token × Bytes → Token × Bytes
unfolding digits flex_number
with_number (kind_token flex_t, s) = flex_number (digits 0 s)
with_number found = found

-- The `switch` on the first character: a letter that begins no word leaves UnspecT, and any other
-- character is an error that is left in the text.
unfoldable pub of_words : List (Bytes × Token) → Bytes → Token × Bytes
unfolding find_word with_number
of_words [] s = (kind_token error_t, s)
of_words (w ∷ ws) s = with_number (find_word (w ∷ ws) s)

unfoldable pub token_at : Bytes → Token × Bytes
unfolding words of_words is_sign
token_at [] = (kind_token unspec_t, [])
token_at (c ∷ s) =
    if is_sign c then (sign_token c, s) else of_words (words word_table (to_lower c)) (c ∷ s)

unfoldable pub next_token : Bytes → Token × Bytes
unfolding token_at
next_token s = let (k, rest) = token_at (skip_spaces s) in (k, skip_spaces rest)

-- What a call gives: a type and the text behind it, or a null pointer.
pub data Parse : Type 0 where
  parsed : YcpType → Bytes → Parse
  failed : Parse
  no_fuel : Parse

infixl 5 ◌>>=◌
abbrev pub ◌>>=◌ : Parse → (YcpType × Bytes → Parse) → Parse
parsed t s >>= f = f (t, s)
failed >>= f = failed
no_fuel >>= f = no_fuel

-- The first `switch`: the types that are complete. The numbered flexes are constants of class Type
-- up to 4, and new objects, which are never const, from 5 on.
abbrev pub const_if : Bool → Quals
const_if as_const = record { is_const = as_const; is_reference = false }

unfoldable pub complete : Token → Bool → Option YcpType
complete (kind_token any_t) c = some (base any_t (const_if c))
complete (kind_token boolean_t) c = some (base boolean_t (const_if c))
complete (kind_token byteblock_t) c = some (base byteblock_t (const_if c))
complete (kind_token error_t) c = some (base error_t plain)
complete (kind_token flex_t) c = some (flex (const_if c))
complete (kind_token float_t) c = some (base float_t (const_if c))
complete (kind_token integer_t) c = some (base integer_t (const_if c))
complete (kind_token locale_t) c = some (base locale_t (const_if c))
complete (kind_token path_t) c = some (base path_t (const_if c))
complete (kind_token string_t) c = some (base string_t (const_if c))
complete (kind_token symbol_t) c = some (base symbol_t (const_if c))
complete (kind_token term_t) c = some (base term_t (const_if c))
complete (kind_token void_t) c = some (base void_t (const_if c))
complete (kind_token wildcard_t) c = some (base wildcard_t plain)
complete (nflex_token n) c = some (nflex (if leb n 4 then const_if c else plain) n)
complete _ c = none

-- `if (nextToken (signature) != next) return 0;`
abbrev pub when_sign : ℕ → Token → Parse → Parse
when_sign next (sign_token c) k = if c == next then k else failed
when_sign next _ k = failed

abbrev pub expect : ℕ → Bytes → (Bytes → Parse) → Parse
expect next s k = when_sign next (next_token s).0 (k (next_token s).1)

-- `do { (*signature)++; } while (isspace (**signature));` at a character.
unfoldable pub step_over : Bytes → Bytes
step_over [] = []
step_over (_ ∷ s) = skip_spaces s

unfoldable pub starts : ℕ → Bytes → Bool
starts c [] = false
starts c (d ∷ s) = d == c

-- A `&` behind the type: a clone of it, which has no qualifiers, as a reference.
unfoldable pub refer : YcpType → Bytes → Parse
unfolding clone starts step_over
refer t s = elim (starts b'&' s) [
  | false ↦ parsed t s
  | true ↦ elim (clone t) [
    | none ↦ failed
    | some u ↦
        parsed (set_quals (record { is_const = is_const u; is_reference = true }) u) (step_over s)
  ]
]

-- FunctionType::concat on a function with no tuple of parameters yet, or with one.
unfoldable pub add_parameter : YcpType → YcpType → YcpType
add_parameter (function_void q r) t = function q r plain (cons t nil)
add_parameter (function q r p ts) t = function q r p (concat ts t)
add_parameter f t = f

unfoldable pub add_component : YcpType → YcpType → YcpType
add_component (tuple q ts) t = tuple q (concat ts t)
add_component u t = u

unfoldable pub drop_one : Bytes → Bytes
drop_one [] = []
drop_one (_ ∷ s) = s

-- Behind the loop over the parameters, and behind that over the components, which leaves the `>`.
unfoldable pub close : ℕ → YcpType → Bytes → Parse
unfolding starts drop_one
close c t s = if starts c s then parsed t (drop_one s) else failed

unfoldable pub close_tuple : YcpType → Bytes → Parse
unfolding starts
close_tuple t s = if starts b'>' s then parsed t s else failed

-- The parts of fromSignature. What they call on the rest of the text is an argument.
module _ (parse : Bytes → Parse) (parameters components : YcpType → Bytes → Parse) where
  -- Behind the type: a `&`, and the parameters of a function, or the other components of a tuple.
  unfoldable pub postfix : Bool → Bool → YcpType → Bytes → Parse
  unfolding refer starts
  postfix is_tuple as_const t s = do
    (u, r) ← refer t s
    elim (starts b'(' r) [
      | true ↦ parameters (function_void (const_if as_const) u) r
      | false ↦ elim is_tuple [
        | false ↦ parsed u r
        | true ↦ elim (clone u) [ none ↦ failed | some v ↦ components v r ]
      ]
    ]

  -- The second `switch`, and the tests for `<` before it and `>` behind it.
  unfoldable pub constructed : Token → Bool → Bytes → Parse
  unfolding postfix
  constructed (kind_token unspec_t) c s = failed
  constructed (kind_token variable_t) c s =
      expect b'<' s λ r.
        parse r >>= λ (t, r₁). expect b'>' r₁ λ r₂. postfix false c (variable (const_if c) t) r₂
  constructed (kind_token block_t) c s =
      expect b'<' s
        λ r. parse r >>= λ (t, r₁). expect b'>' r₁ λ r₂. postfix false c (block (const_if c) t) r₂
  constructed (kind_token list_t) c s =
      expect b'<' s
        λ r. parse r >>= λ (t, r₁). expect b'>' r₁ λ r₂. postfix false c (list (const_if c) t) r₂
  constructed (kind_token map_t) c s = expect b'<' s λ r. parse r >>= λ (k, r₁).
      expect b',' r₁
        λ r₂. parse r₂ >>= λ (v, r₃). expect b'>' r₃ λ r₄. postfix false c (map (const_if c) k v) r₄
  constructed (kind_token tuple_t) c s =
      expect b'<' s λ r. parse r >>= λ (t, r₁). postfix true c (tuple (const_if c) (cons t nil)) r₁
  constructed (sign_token d) c s = parse s >>= λ (t, r).
      if d == b'(' then postfix false c (function_void (const_if c) t) r else failed
  constructed _ c s = parse s >>= λ _. failed

  unfoldable pub of_token : Token → Bool → Bytes → Parse
  unfolding complete constructed
  of_token k c s = elim (complete k c) [ some t ↦ postfix false c t s | none ↦ constructed k c s ]

  -- A leading `const`.
  unfoldable pub of_first : Token → Bytes → Parse
  unfolding next_token of_token
  of_first const_token s = of_token (next_token s).0 true (next_token s).1
  of_first k s = of_token k false s

  unfoldable pub signature : Bytes → Parse
  unfolding of_first
  signature [] = parsed (base unspec_t plain) []
  signature (c ∷ s) = of_first (next_token (c ∷ s)).0 (next_token (c ∷ s)).1

-- One round of each loop. A parameter that fails leaves the text at a character other than `)`.
abbrev after_parameter : (YcpType → Bytes → Parse) → YcpType → Parse → Parse
after_parameter again fn no_fuel = no_fuel
after_parameter again fn failed = failed
after_parameter again fn (parsed t s) = elim (starts b',' s) [
  | true ↦ again (add_parameter fn t) s
  | false ↦ close b')' (add_parameter fn t) s
]

unfoldable pub parameter_at : (Bytes → Parse) → (YcpType → Bytes → Parse) → YcpType → Bytes → Parse
unfolding starts close add_parameter
parameter_at parse again fn s = elim (starts b')' s) [
  | true ↦ close b')' fn s
  | false ↦ after_parameter again fn (parse s)
]

unfoldable pub parameter_round :
    (Bytes → Parse) → (YcpType → Bytes → Parse) → YcpType → Bytes → Parse
unfolding step_over parameter_at
parameter_round parse again fn s = parameter_at parse again fn (step_over s)

unfoldable pub component_round :
    (Bytes → Parse) → (YcpType → Bytes → Parse) → YcpType → Bytes → Parse
unfolding starts drop_one close_tuple add_component
component_round parse again tt s = elim (starts b',' s) [
  | true ↦ parse (drop_one s) >>= λ (t, r). again (add_component tt t) r
  | false ↦ close_tuple tt s
]

unfoldable mutual
  unfolding signature parameter_round component_round

  pub from_signature : ℕ → Bytes → Parse
  from_signature zero s = no_fuel
  from_signature (suc f) s = signature (from_signature f) (parameters f) (components f) s

  pub parameters : ℕ → YcpType → Bytes → Parse
  parameters zero fn s = no_fuel
  parameters (suc f) fn s = parameter_round (from_signature f) (parameters f) fn s

  pub components : ℕ → YcpType → Bytes → Parse
  components zero tt s = no_fuel
  components (suc f) tt s = component_round (from_signature f) (components f) tt s
