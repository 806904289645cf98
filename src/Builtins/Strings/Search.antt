-- ===== src/Builtins/Strings/Search.antt =====
-- What search and substring have to do with each other, on ASCII strings.
use yast_core.Prelude.{
  ℕ, zero, suc, ◌≤◌, ◌<◌, ◌^◌, ◌≡◌, ◌↔◌, refl, sym, ap, subst, ◌∙◌, inl, inr, true, false, Option,
  none, some, [], ◌∷◌, ◌++◌, Bytes, length, ==_refl, Bool-cases, Option-cases, arith,
}
use yast_core.Prelude.Int.{pos}
use yast_core.Values.Defs.{Value, void, integer, string}
use yast_core.Builtins.Strings.{
  Wide, is_ascii, size_type, starts_with, find_text, take, drop, part, position, chars, or_empty,
  s_plus1, s_substring1, s_substring2, s_search,
}

size_type-pos : (n : ℕ) → n < 2 ^ 64 → size_type (pos n) ≡ n
unfolding size_type
size_type-pos n h = omega arith

take-drop : (n : ℕ) (s : Bytes) → take n s ++ drop n s ≡ s
unfolding take drop
take-drop zero s = refl
take-drop (suc n) [] = refl
take-drop (suc n) (c ∷ s) = ap (λ t. c ∷ t) (take-drop n s)

starts_with-take : (sub s : Bytes) → starts_with sub s ≡ true → take (length sub) s ≡ sub
unfolding starts_with take
starts_with-take [] s h = refl
starts_with-take (c ∷ sub) [] h = cc
starts_with-take (c ∷ sub) (d ∷ s) h = ground (arith, starts_with-take sub s)

take-starts_with : (sub s : Bytes) → take (length sub) s ≡ sub → starts_with sub s ≡ true
unfolding starts_with take
take-starts_with [] s h = refl
take-starts_with (c ∷ sub) [] h = cc
take-starts_with (c ∷ sub) (d ∷ s) h = ground (arith, take-starts_with sub s, ==_refl c)

-- The first position at which `sub` stands.
abbrev IsFirst : Bytes → Bytes → ℕ → Type 0
IsFirst sub s i =
    (i ≤ length s)
    × (starts_with sub (drop i s) ≡ true)
    × ((j : ℕ) → j < i → starts_with sub (drop j s) ≡ false)

IsFirst-zero : (sub s : Bytes) → starts_with sub s ≡ true → IsFirst sub s 0
unfolding drop
IsFirst-zero sub s e = (omega arith, e, λ j lt. absurd (omega (arith, lt)))

IsFirst-suc :
    (sub : Bytes) (c : ℕ) (s : Bytes) (i : ℕ)
    → starts_with sub (c ∷ s) ≡ false
    → IsFirst sub s i
    → IsFirst sub (c ∷ s) (suc i)
unfolding drop
IsFirst-suc sub c s i e first = (omega (arith, first.0), first.1, before)
  where
    before : (j : ℕ) → j < suc i → starts_with sub (drop j (c ∷ s)) ≡ false
    before zero lt = e
    before (suc j) lt = first.2 j (omega arith)

find_text-IsFirst : (sub s : Bytes) (i : ℕ) → find_text sub s ≡ some i → IsFirst sub s i
unfolding find_text
find_text-IsFirst sub [] i h = elim (Bool-cases (starts_with sub [])) [
  | inl e ↦ subst (IsFirst sub []) (cc (rw e at h)) (IsFirst-zero sub [] e)
  | inr e ↦ absurd (cc (rw e at h))
]
find_text-IsFirst sub (c ∷ s) i h = elim (Bool-cases (starts_with sub (c ∷ s))) [
  | inl e ↦ subst (IsFirst sub (c ∷ s)) (cc (rw e at h)) (IsFirst-zero sub (c ∷ s) e)
  | inr e ↦ elim (Option-cases (find_text sub s)) [
    | inl f ↦ absurd (cc (rw (e, f) at h))
    | inr (k, f) ↦
        subst (IsFirst sub (c ∷ s)) (cc (rw (e, f) at h))
          (IsFirst-suc sub c s k e (find_text-IsFirst sub s k f))
  ]
]

find_text-none :
    (sub s : Bytes) (j : ℕ)
    → find_text sub s ≡ none
    → j ≤ length s
    → starts_with sub (drop j s) ≡ false
unfolding find_text drop
find_text-none sub [] zero h le = ground arith
find_text-none sub [] (suc j) h le = absurd (omega arith)
find_text-none sub (c ∷ s) zero h le = ground arith
find_text-none sub (c ∷ s) (suc j) h le = ground (arith, find_text-none sub s j)

part-inside :
    (s : Bytes) (i : ℕ) (count : Option ℕ)
    → i ≤ length s
    → part s i count ≡ some (elim count [ none ↦ drop i s | some n ↦ take n (drop i s) ])
part-inside s i count h = ground arith

module _ (wide : Wide) (s : Bytes) (ascii : is_ascii s ≡ true) (short : length s < 2 ^ 64) where
  s_substring2_lem :
      (i n : ℕ)
      → i ≤ length s
      → n < 2 ^ 64
      → s_substring2 wide (string s) (integer (pos i)) (integer (pos n))
        ≡ string (take n (drop i s))
  unfolding s_substring2
  s_substring2_lem i n h k =
      (λ d.
        let b = ascii d in
        or_empty wide b
          (part (chars wide b s) (size_type-pos i (omega arith) d) (some (size_type-pos n k d))))
      ∙ ap (or_empty wide true) (part-inside s i (some n) h)

  s_substring1_lem :
      (i : ℕ) → i ≤ length s → s_substring1 wide (string s) (integer (pos i)) ≡ string (drop i s)
  unfolding s_substring1
  s_substring1_lem i h =
      (λ d.
        let b = ascii d in
        or_empty wide b (part (chars wide b s) (size_type-pos i (omega arith) d) none))
      ∙ ap (or_empty wide true) (part-inside s i none h)

  -- The parts of an ASCII string before and from any position in it, put together, are the string.
  pub s_plus1-s_substring2-s_substring1 :
      (i : ℕ)
      → i ≤ length s
      → s_plus1
          (s_substring2 wide (string s) (integer (pos 0)) (integer (pos i)))
          (s_substring1 wide (string s) (integer (pos i)))
        ≡ string s
  unfolding s_plus1 drop
  s_plus1-s_substring2-s_substring1 i h =
      (λ d. s_plus1 (s_substring2_lem 0 i (omega arith) (omega arith) d) (s_substring1_lem i h d))
      ∙ ap string (take-drop i s)

  module _ (sub : Bytes) (ascii_sub : is_ascii sub ≡ true) (short_sub : length sub < 2 ^ 64) where
    abbrev pub IsAt : ℕ → Type 0
    IsAt j =
        s_substring2 wide (string s) (integer (pos j)) (integer (pos (length sub))) ≡ string sub

    IsAt-iff : (j : ℕ) → j ≤ length s → IsAt j ↔ (starts_with sub (drop j s) ≡ true)
    IsAt-iff j h =
        let found = s_substring2_lem j (length sub) h short_sub in
        (
          λ p. take-starts_with sub (drop j s) (cc (sym found ∙ p)),
          λ e. found ∙ ap string (starts_with-take sub (drop j s) e),
        )

    search_lem : s_search wide (string s) (string sub) ≡ position (find_text sub s)
    unfolding s_search
    search_lem = rw (ascii, ascii_sub) refl

    -- The first position at which substring finds the text, or nil if there is none.
    abbrev pub IsSearchResult : Value → Type 0
    IsSearchResult (integer (pos i)) = (i ≤ length s) × IsAt i × ((j : ℕ) → j < i → ¬ IsAt j)
    IsSearchResult void = (j : ℕ) → j ≤ length s → ¬ IsAt j
    IsSearchResult v = ⊥

    position-IsSearchResult : (o : Option ℕ) → find_text sub s ≡ o → IsSearchResult (position o)
    position-IsSearchResult none e =
        λ j h at. absurd (cc (sym (find_text-none sub s j e h) ∙ (IsAt-iff j h).0 at))
    position-IsSearchResult (some i) e =
        let (le, at, before) = find_text-IsFirst sub s i e in
        (
          le,
          (IsAt-iff i le).1 at,
          λ j lt at'. absurd (cc (sym (before j lt) ∙ (IsAt-iff j (omega (arith, le, lt))).0 at')),
        )

    -- search gives, for ASCII strings of less than 2 ^ 64 characters, the first position at which
    -- substring finds the text that was looked for, or nil if there is no such position.
    pub s_search-IsSearchResult : IsSearchResult (s_search wide (string s) (string sub))
    s_search-IsSearchResult =
        subst IsSearchResult (sym search_lem) (position-IsSearchResult (find_text sub s) refl)
