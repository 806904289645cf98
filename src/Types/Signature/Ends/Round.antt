-- ===== src/Types/Signature/Ends/Round.antt =====
-- One call of Type::fromSignature ends if the calls in it do, and so does a round of its loops.
use yast_core.Prelude.{
  ℕ, ◌≤◌, ◌<◌, ◌≡◌, refl, inl, inr, Bool, true, false, none, [], ◌∷◌, Bytes, length, Bool-cases,
  Option-cases, ◌==◌, arith,
}
use yast_core.Types.Kind.{unspec_t, error_t, variable_t, list_t, map_t, block_t, tuple_t}
use yast_core.Types.Defs.{YcpType, function_void, variable, list, map, block, tuple, cons, nil}
use yast_core.Types.Flex.{clone}
use yast_core.Types.Signature.{
  Token, kind_token, const_token, sign_token, skip_spaces, next_token, Parse, parsed, failed,
  no_fuel, ◌>>=◌, complete, const_if, expect, step_over, starts, refer, drop_one, postfix,
  constructed, of_token, of_first, signature, after_parameter, parameter_at, parameter_round,
  component_round, add_parameter, add_component,
}
use yast_core.Types.Signature.Ends.Tokens.{length-skip_spaces, takes, next_token-Shrinks}
use yast_core.Types.Signature.Ends.{
  Ends, Ends-bind, Ends-expect, length-drop_one, Ends-refer, Ends-close, Ends-close_tuple, Ends-if,
  Ends-option, Ends-weaken,
}

-- `n` is the length of the text of a call; what it calls is given less, or as much in the loops.
module _ (P : Bytes → Parse) (Q R : YcpType → Bytes → Parse) (n : ℕ)
    (ends_P : (s : Bytes) → length s < n → Ends (length s) (P s))
    (ends_Q : (t : YcpType) (s : Bytes) → length s ≤ n → 0 < length s → Ends (length s) (Q t s))
    (ends_R : (t : YcpType) (s : Bytes) → length s ≤ n → Ends (length s) (R t s)) where
  Ends-postfix :
      (is_tuple c : Bool) (t : YcpType) (s : Bytes)
      → length s ≤ n
      → Ends n (postfix P Q R is_tuple c t s)
  unfolding postfix
  Ends-postfix is_tuple c t s h = Ends-bind (length s) n (refer t s) _ (Ends-refer t s) λ u r le.
      Ends-if n (starts b'(' r) (Q (function_void (const_if c) u) r) _
        (λ e. Ends-weaken (length r) n _ (omega (arith, le, h)) (
          ends_Q (function_void (const_if c) u) r (omega (arith, le, h))
            (omega (arith, length-drop_one b'(' r e))))
        (λ e.
          Ends-if n is_tuple _ (parsed u r)
            (λ _.
              Ends-option n (clone u) (λ v. R v r)
                (λ v.
                  Ends-weaken (length r) n _ (omega (arith, le, h))
                    (ends_R v r (omega (arith, le, h)))))
            (λ _. omega (arith, le, h)))

  -- A part of a type and the sign behind it.
  Ends-part :
      (d : ℕ) (s : Bytes) (f : YcpType → Bytes → Parse)
      → length s < n
      → ((t : YcpType) (r : Bytes) → length r < n → Ends n (f t r))
      → Ends n (P s >>= λ (t, r). expect d r (f t))
  Ends-part d s f h k =
      Ends-bind (length s) n (P s) _ (ends_P s h)
        λ t r le. Ends-expect n d r (f t) (λ u le'. k t u (omega (arith, h, le, le')))

  Ends-element :
      (s : Bytes) (f : YcpType → Bytes → Parse)
      → length s < n
      → ((t : YcpType) (r : Bytes) → length r < n → Ends n (f t r))
      → Ends n (expect b'<' s λ r. P r >>= λ (t, r₁). expect b'>' r₁ (f t))
  Ends-element s f h k =
      Ends-expect n b'<' s (λ r. P r >>= λ (t, r₁). expect b'>' r₁ (f t))
        (λ r le. Ends-part b'>' r f (omega (arith, h, le)) k)

  Ends-constructed :
      (k : Token) (c : Bool) (s : Bytes)
      → complete k c ≡ none
      → (takes k ≡ true → length s < n)
      → Ends n (constructed P Q R k c s)
  unfolding constructed complete
  Ends-constructed (kind_token unspec_t) c s e h = tt
  Ends-constructed (kind_token error_t) c s e h = cc
  Ends-constructed (kind_token variable_t) c s e h =
      Ends-element s _ (h refl)
        (λ t r le. Ends-postfix false c (variable (const_if c) t) r (omega arith))
  Ends-constructed (kind_token block_t) c s e h =
      Ends-element s _ (h refl)
        (λ t r le. Ends-postfix false c (block (const_if c) t) r (omega arith))
  Ends-constructed (kind_token list_t) c s e h =
      Ends-element s _ (h refl)
        (λ t r le. Ends-postfix false c (list (const_if c) t) r (omega arith))
  Ends-constructed (kind_token map_t) c s e h = Ends-expect n b'<' s _ λ r le.
      Ends-part b',' r _ (omega (arith, h refl, le)) λ k r₁ lt.
        Ends-part b'>' r₁ _ lt
          λ v r₂ lt'. Ends-postfix false c (map (const_if c) k v) r₂ (omega arith)
  Ends-constructed (kind_token tuple_t) c s e h =
      Ends-expect n b'<' s
        (λ r. P r >>= λ (t, r₁). postfix P Q R true c (tuple (const_if c) (cons t nil)) r₁)
        λ r le.
          Ends-bind (length r) n (P r)
            (λ (t, r₁). postfix P Q R true c (tuple (const_if c) (cons t nil)) r₁)
            (ends_P r (omega (arith, h refl, le)))
            λ t r₁ le'.
              Ends-postfix true c (tuple (const_if c) (cons t nil)) r₁
                (omega (arith, h refl, le, le'))
  Ends-constructed (sign_token d) c s e h =
      Ends-bind (length s) n (P s) _ (ends_P s (h refl)) λ t r le. elim (Bool-cases (d == b'(')) [
        | inl p ↦
            rw p (Ends-postfix false c (function_void (const_if c) t) r (omega (arith, h refl, le)))
        | inr p ↦ rw p tt
      ]
  Ends-constructed _ c s e h = Ends-bind (length s) n (P s) _ (ends_P s (h refl)) (λ t r le. tt)

  Ends-of_token :
      (k : Token) (c : Bool) (s : Bytes)
      → length s ≤ n
      → (takes k ≡ true → length s < n)
      → Ends n (of_token P Q R k c s)
  unfolding of_token
  Ends-of_token k c s le h = elim (Option-cases (complete k c)) [
    | inl e ↦ rw (e, of_token) (Ends-constructed k c s e h)
    | inr (t, e) ↦ rw (e, of_token) (Ends-postfix false c t s le)
  ]

  Ends-of_first :
      (k : Token) (s : Bytes)
      → length s ≤ n
      → (takes k ≡ true → length s < n)
      → Ends n (of_first P Q R k s)
  unfolding of_first
  Ends-of_first const_token s le h =
      let (rest, _) = next_token-Shrinks s in
      Ends-of_token (next_token s).0 true (next_token s).1 (omega (arith, le, rest))
        (λ _. omega (arith, h refl, rest))
  Ends-of_first k s le h = Ends-of_token k false s le h

  pub Ends-signature : (s : Bytes) → length s ≡ n → Ends n (signature P Q R s)
  unfolding signature
  Ends-signature [] e = omega arith
  Ends-signature (c ∷ s) e =
      let (le, lt) = next_token-Shrinks (c ∷ s) in
      Ends-of_first (next_token (c ∷ s)).0 (next_token (c ∷ s)).1 (omega (arith, le, e))
        (λ h. omega (arith, lt h, e))

-- The rounds of the loops, whose text gets shorter.
module _ (P : Bytes → Parse) (Q R : YcpType → Bytes → Parse) (n : ℕ)
    (ends_P : (s : Bytes) → length s < n → Ends (length s) (P s))
    (ends_Q : (t : YcpType) (s : Bytes) → length s < n → 0 < length s → Ends (length s) (Q t s))
    (ends_R : (t : YcpType) (s : Bytes) → length s < n → Ends (length s) (R t s)) where
  Ends-after_parameter :
      (t : YcpType) (m : ℕ) (o : Parse) → m < n → Ends m o → Ends n (after_parameter Q t o)
  Ends-after_parameter t m no_fuel lt h = h
  Ends-after_parameter t m failed lt h = tt
  Ends-after_parameter t m (parsed u s) lt h =
      Ends-if n (starts b',' s) _ _
        (λ e. Ends-weaken (length s) n _ (omega (arith, lt, h)) (
          ends_Q (add_parameter t u) s (omega (arith, lt, h))
            (omega (arith, length-drop_one b',' s e))))
        (λ e. Ends-close n b')' (add_parameter t u) s (omega (arith, lt, h)))

  pub Ends-parameter_round :
      (t : YcpType) (s : Bytes) → length s ≡ n → 0 < length s → Ends n (parameter_round P Q t s)
  unfolding parameter_round parameter_at step_over
  Ends-parameter_round t [] e pos = absurd (omega arith)
  Ends-parameter_round t (c ∷ s) e pos =
      let r = skip_spaces s in
      let lt : length r < n = omega (arith, e, length-skip_spaces s) in
      Ends-if n (starts b')' r) _ _ (λ _. Ends-close n b')' t r (omega (arith, lt)))
        (λ _. Ends-after_parameter t (length r) (P r) lt (ends_P r lt))

  pub Ends-component_round :
      (t : YcpType) (s : Bytes) → length s ≡ n → Ends n (component_round P R t s)
  unfolding component_round
  Ends-component_round t s e =
      Ends-if n (starts b',' s) _ _
        (λ h.
          let lt = length-drop_one b',' s h in
          Ends-bind (length (drop_one s)) n (P (drop_one s)) _
            (ends_P (drop_one s) (omega (arith, lt, e)))
            λ u r le.
              Ends-weaken (length r) n _ (omega (arith, lt, e, le))
                (ends_R (add_component t u) r (omega (arith, lt, e, le))))
        (λ _. Ends-close_tuple n t s (omega (arith, e)))
