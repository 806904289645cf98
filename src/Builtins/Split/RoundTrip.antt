-- ===== src/Builtins/Split/RoundTrip.antt =====
-- Splitting a text and merging the pieces.
use yast_core.Prelude.{
  ℕ, ◌≡◌, refl, sym, ap, ◌∙◌, Bool, true, false, some, [], ◌∷◌, ◌++◌, Bytes, ◌==◌, if◌then◌else◌,
  append_assoc, append-nil, Bool-cases, inl, inr, ◌⊎◌, arith,
}
use yast_core.Values.Defs.{Values, string, list, nil, cons}
use yast_core.Builtins.Split.{member, pieces, l_splitstring, merge, s_mergestring}

-- What stands in front of a piece.
abbrev before : Bool → ℕ → Bytes → Bytes
before true c ret = ret
before false c ret = ret ++ c ∷ []

before-if :
    (first : Bool) (c : ℕ) (ret : Bytes)
    → (if first then ret else ret ++ c ∷ []) ≡ before first c ret
before-if true c ret = refl
before-if false c ret = refl

member_one : (c d : ℕ) → member d (c ∷ []) ≡ (d == c)
unfolding member
member_one c d = ground arith

behind_piece : (r : Bytes) (c : ℕ) (cs : Bytes) → r ++ c ∷ [] ++ [] ++ cs ≡ r ++ c ∷ cs
behind_piece r c cs = ap (λ x. x ++ cs) (append-nil (r ++ c ∷ [])) ∙ append_assoc r (c ∷ []) cs

longer_piece :
    (r piece : Bytes) (c : ℕ) (cs : Bytes) → r ++ (piece ++ c ∷ []) ++ cs ≡ r ++ piece ++ c ∷ cs
longer_piece r piece c cs =
    ap (λ x. x ++ cs) (sym (append_assoc r piece (c ∷ []))) ∙ append_assoc (r ++ piece) (c ∷ []) cs

merge-pieces :
    (c : ℕ) (first : Bool) (ret piece cs : Bytes)
    → merge (c ∷ []) first ret (pieces (c ∷ []) piece cs) ≡ some (before first c ret ++ piece ++ cs)
unfolding merge pieces
merge-pieces c first ret piece [] =
    ap some (
      ap (λ r. r ++ piece) (before-if first c ret) ∙ sym (append-nil (before first c ret ++ piece)))
merge-pieces c first ret piece (d ∷ cs) = elim (Bool-cases (d == c)) [
  | inl e ↦
      let same : d ≡ c = ground arith in
      rw (member_one c d, e)
        (ap (λ x. merge (c ∷ []) false (x ++ piece) (pieces (c ∷ []) [] cs)) (before-if first c ret)
          ∙ merge-pieces c false (before first c ret ++ piece) [] cs
          ∙ ap some (behind_piece (before first c ret ++ piece) c cs)
          ∙ ap (λ x. some (before first c ret ++ piece ++ x ∷ cs)) (sym same))
  | inr e ↦
      rw (member_one c d, e)
        (merge-pieces c first ret (piece ++ d ∷ []) cs
          ∙ ap some (longer_piece (before first c ret) piece d cs))
]

-- Merging the pieces into which a text is split by one delimiter, with that delimiter between them,
-- gives the text back.
pub s_mergestring-l_splitstring :
    (ss : Bytes) (c : ℕ)
    → s_mergestring (l_splitstring (string ss) (string (c ∷ []))) (string (c ∷ []))
      ≡ some (string ss)
unfolding s_mergestring l_splitstring
s_mergestring-l_splitstring [] c = refl
s_mergestring-l_splitstring (d ∷ ss) c = rw (merge-pieces c true [] [] (d ∷ ss)) refl

-- Pieces without the characters of `sc`.
unfoldable pub HasPieces : Bytes → Values → Type 0
HasPieces sc nil = Unit
HasPieces sc (cons (string p) vs) =
    ((c : ℕ) → member c p ≡ true → member c sc ≡ false) × HasPieces sc vs
HasPieces sc (cons v vs) = ⊥

member-append :
    (c d : ℕ) (piece : Bytes)
    → member c (piece ++ d ∷ []) ≡ true
    → (member c piece ≡ true) ⊎ (c ≡ d)
unfolding member
member-append c d [] h = ground arith
member-append c d (e ∷ piece) h = elim (Bool-cases (c == e)) [
  | inl k ↦ inl (rw k refl)
  | inr k ↦ elim (member-append c d piece (rw k at h)) [ inl a ↦ inl (rw k a) | inr b ↦ inr b ]
]

pieces-HasPieces :
    (sc piece cs : Bytes)
    → ((c : ℕ) → member c piece ≡ true → member c sc ≡ false)
    → HasPieces sc (pieces sc piece cs)
unfolding pieces HasPieces
pieces-HasPieces sc piece [] h = (h, tt)
pieces-HasPieces sc piece (d ∷ cs) h = elim (Bool-cases (member d sc)) [
  | inl e ↦ rw e (h, pieces-HasPieces sc [] cs λ c m. cc)
  | inr e ↦ rw e (
      pieces-HasPieces sc (piece ++ d ∷ []) cs
        λ c m. elim (member-append c d piece m) [ inl a ↦ h c a | inr b ↦ rw b e ])
]

-- Splitting a text gives a list of texts in which none of the delimiters occurs.
pub l_splitstring-HasPieces :
    (ss sc : Bytes)
    → (vs : Values) × (l_splitstring (string ss) (string sc) ≡ list vs) × HasPieces sc vs
unfolding l_splitstring HasPieces
l_splitstring-HasPieces [] sc = (nil, refl, tt)
l_splitstring-HasPieces (d ∷ ss) [] = (nil, refl, tt)
l_splitstring-HasPieces (d ∷ ss) (c ∷ sc) =
    (pieces (c ∷ sc) [] (d ∷ ss), refl, pieces-HasPieces (c ∷ sc) [] (d ∷ ss) λ x m. cc)
