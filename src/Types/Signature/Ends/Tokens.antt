-- ===== src/Types/Signature/Ends/Tokens.antt =====
-- How much of the text Type::nextToken takes.
use yast_core.Prelude.{
  ℕ, zero, suc, ◌+◌, ◌*◌, ◌-◌, ◌≤◌, ◌<◌, ◌≡◌, refl, inl, inr, Bool, true, false, some, List, [],
  ◌∷◌, Bytes, All, length, Option-cases, ◌==◌, Bool-cases, arith,
}
use yast_core.Types.Kind.{unspec_t, error_t, flex_t}
use yast_core.Types.Signature.{
  is_sign, skip_spaces, Token, kind_token, const_token, nflex_token, sign_token, behind_word,
  word_table, words, of_words, to_lower, flex_number, find_word, digits, with_number, token_at,
  next_token,
}

pub length-skip_spaces : (s : Bytes) → length (skip_spaces s) ≤ length s
unfolding skip_spaces
length-skip_spaces [] = omega arith
length-skip_spaces (c ∷ s) = ground (arith, length-skip_spaces s)

-- All tokens but UnspecT and ErrorT take a character at least.
abbrev pub takes : Token → Bool
takes (kind_token unspec_t) = false
takes (kind_token error_t) = false
takes k = true

abbrev pub Shrinks : ℕ → Token × Bytes → Type 0
Shrinks n p = (length p.1 ≤ n) × (takes p.0 ≡ true → length p.1 < n)

abbrev IsWordList : List (Bytes × Token) → Type 0
IsWordList ws = All (λ w. 0 < length w.0) ws

length-behind_word :
    (word s r : Bytes) → behind_word word s ≡ some r → length r + length word ≡ length s
unfolding behind_word
length-behind_word [] s r h = ground arith
length-behind_word (w ∷ word) [] r h = cc
length-behind_word (w ∷ word) (c ∷ s) r h = ground (arith, length-behind_word word s r)

find_word-Shrinks :
    (ws : List (Bytes × Token)) (s : Bytes) → IsWordList ws → Shrinks (length s) (find_word ws s)
unfolding find_word
find_word-Shrinks [] s h = (omega arith, λ e. cc)
find_word-Shrinks ((word, k) ∷ ws) s h = elim (Option-cases (behind_word word s)) [
  | inl e ↦ rw (e, find_word) (find_word-Shrinks ws s h.1)
  | inr (r, e) ↦
      rw (e, find_word)
        (
          omega (arith, h.0, length-behind_word word s r e),
          λ _. omega (arith, h.0, length-behind_word word s r e),
        )
]

words-IsWordList :
    (table : List (ℕ × List (Bytes × Token))) (c : ℕ)
    → All (λ entry. IsWordList entry.1) table
    → IsWordList (words table c)
unfolding words
words-IsWordList [] c h = tt
words-IsWordList ((d, ws) ∷ table) c h = elim (Bool-cases (c == d)) [
  | inl e ↦ rw e h.0
  | inr e ↦ rw e (words-IsWordList table c h.1)
]

length-digits : (n : ℕ) (s : Bytes) → length (digits n s).1 ≤ length s
unfolding digits
length-digits n [] = omega arith
length-digits n (c ∷ s) = ground (arith, length-digits (n * 10 + (c - 48)) s)

flex_number-Shrinks : (n : ℕ) (p : ℕ × Bytes) → length p.1 < n → Shrinks n (flex_number p)
unfolding flex_number
flex_number-Shrinks n (zero, s) h = (omega arith, λ e. h)
flex_number-Shrinks n (suc m, s) h = (omega arith, λ e. h)

with_number-Shrinks : (n : ℕ) (p : Token × Bytes) → Shrinks n p → Shrinks n (with_number p)
unfolding with_number
with_number-Shrinks n (kind_token flex_t, s) h =
    flex_number-Shrinks n _ (omega (arith, h.0, h.1 refl, length-digits 0 s))
with_number-Shrinks n (kind_token _, s) h = h
with_number-Shrinks n (const_token, s) h = h
with_number-Shrinks n (nflex_token m, s) h = h
with_number-Shrinks n (sign_token c, s) h = h

of_words-Shrinks :
    (ws : List (Bytes × Token)) (s : Bytes) → IsWordList ws → Shrinks (length s) (of_words ws s)
unfolding of_words
of_words-Shrinks [] s h = (omega arith, λ e. cc)
of_words-Shrinks (w ∷ ws) s h = with_number-Shrinks _ _ (find_word-Shrinks (w ∷ ws) s h)

words_fill : All (λ (entry : ℕ × List (Bytes × Token)). IsWordList entry.1) word_table
words_fill = omega arith

token_at-Shrinks : (s : Bytes) → Shrinks (length s) (token_at s)
unfolding token_at
token_at-Shrinks [] = (omega arith, λ e. cc)
token_at-Shrinks (c ∷ s) = elim (Bool-cases (is_sign c)) [
  | inl e ↦ rw e (omega arith, λ _. omega arith)
  | inr e ↦ rw e (
      of_words-Shrinks (words word_table (to_lower c)) (c ∷ s)
        (words-IsWordList word_table (to_lower c) words_fill))
]

pub next_token-Shrinks : (s : Bytes) → Shrinks (length s) (next_token s)
unfolding next_token
next_token-Shrinks s =
    let (le, lt) = token_at-Shrinks (skip_spaces s) in
    let rest = length-skip_spaces (token_at (skip_spaces s)).1 in
    let start = length-skip_spaces s in
    (omega (arith, le, rest, start), λ e. omega (arith, lt e, rest, start))
