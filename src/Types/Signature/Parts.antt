-- ===== src/Types/Signature/Parts.antt =====
-- What Type::fromSignature makes of the text of Type::toString.
use yast_core.Prelude.{
  ℕ, ◌≡◌, refl, ap, ◌∙◌, Bool, true, false, ◌&&◌, some, [], ◌∷◌, ◌++◌, Bytes, if◌then◌else◌,
}
use yast_core.Prelude.Texts.{codes}
use yast_core.Types.Kind.{
  Kind, any_t, boolean_t, byteblock_t, float_t, integer_t, locale_t, path_t, string_t, symbol_t,
  term_t, void_t, wildcard_t, variable_t, list_t, map_t, block_t,
}
use yast_core.Types.Defs.{
  Quals, plain, YcpType, base, variable, list, map, block, function_void, set_quals, is_const,
}
use yast_core.Types.Flex.{clone}
use yast_core.Types.Print.{kind_text}
use yast_core.Types.Signature.{
  skip_spaces, Token, kind_token, const_token, next_token, Parse, parsed, const_if, complete, refer,
  starts, postfix, of_token, of_first, signature, add_parameter, parameter_at, parameter_round,
}

-- The kinds whose text is a word of the signatures; a const wildcard is not read back.
abbrev pub IsNamed : Kind → Quals → Type 0
IsNamed any_t q = Unit
IsNamed boolean_t q = Unit
IsNamed byteblock_t q = Unit
IsNamed float_t q = Unit
IsNamed integer_t q = Unit
IsNamed locale_t q = Unit
IsNamed path_t q = Unit
IsNamed string_t q = Unit
IsNamed symbol_t q = Unit
IsNamed term_t q = Unit
IsNamed void_t q = Unit
IsNamed wildcard_t q = q.is_const ≡ false
IsNamed _ q = ⊥

abbrev pub is_empty : Bytes → Bool
is_empty [] = true
is_empty (c ∷ s) = false

-- A text that begins with no space and no `)`.
abbrev pub IsWord : Bytes → Type 0
IsWord s = (skip_spaces s ≡ s) × (starts b')' s ≡ false) × (is_empty s ≡ false)

-- How a kind with a text of its own is read: the token, the type, and the text's first letter.
abbrev pub IsRead : Kind → Quals → Bytes → Type 0
IsRead k q s =
    (next_token (kind_text k ++ s) ≡ (kind_token k, skip_spaces s))
    × (complete (kind_token k) q.is_const ≡ some (base k (const_if q.is_const)))
    × IsWord (kind_text k ++ s)

pub kind_text-IsRead : (k : Kind) (q : Quals) (s : Bytes) → IsNamed k q → IsRead k q s
unfolding next_token kind_text complete skip_spaces starts
kind_text-IsRead any_t q s h = (refl, refl, (refl, refl, refl))
kind_text-IsRead boolean_t q s h = (refl, refl, (refl, refl, refl))
kind_text-IsRead byteblock_t q s h = (refl, refl, (refl, refl, refl))
kind_text-IsRead float_t q s h = (refl, refl, (refl, refl, refl))
kind_text-IsRead integer_t q s h = (refl, refl, (refl, refl, refl))
kind_text-IsRead locale_t q s h = (refl, refl, (refl, refl, refl))
kind_text-IsRead path_t q s h = (refl, refl, (refl, refl, refl))
kind_text-IsRead string_t q s h = (refl, refl, (refl, refl, refl))
kind_text-IsRead symbol_t q s h = (refl, refl, (refl, refl, refl))
kind_text-IsRead term_t q s h = (refl, refl, (refl, refl, refl))
kind_text-IsRead void_t q s h = (refl, refl, (refl, refl, refl))
kind_text-IsRead wildcard_t q s h = (refl, rw h refl, (refl, refl, refl))
kind_text-IsRead _ q s h = elim h [ ]

refer_lem :
    (t u : YcpType) (s : Bytes)
    → clone t ≡ some u
    → refer t (b'&' ∷ s)
      ≡ parsed (set_quals (record { is_const = is_const u; is_reference = true }) u) (skip_spaces s)
unfolding refer
refer_lem t u s e = rw (e, refer) refl

next_token-const : (s : Bytes) → next_token (codes "const " ++ s) ≡ (const_token, skip_spaces s)
unfolding next_token skip_spaces
next_token-const s = refl

-- Behind a type: the parameters, if there are any.
abbrev pub behind : (YcpType → Bytes → Parse) → Bool → YcpType → Bytes → Parse
behind Q c t s = elim (starts b'(' s) [
  | true ↦ Q (function_void (const_if c) t) s
  | false ↦ parsed t s
]

pub behind-closed :
    (Q : YcpType → Bytes → Parse) (c : Bool) (t : YcpType) (s : Bytes)
    → starts b'(' s ≡ false
    → behind Q c t s ≡ parsed t s
behind-closed Q c t s h = rw (h, behind) refl

module _ (P : Bytes → Parse) (Q R : YcpType → Bytes → Parse) where
  signature_lem :
      (s : Bytes)
      → is_empty s ≡ false
      → signature P Q R s ≡ of_first P Q R (next_token s).0 (next_token s).1
  unfolding signature
  signature_lem [] h = cc
  signature_lem (c ∷ s) h = refl

  -- `const` in front of the text of a type.
  pub signature-pre :
      (c : Bool) (s : Bytes) (k : Kind) (r : Bytes)
      → IsWord s
      → next_token s ≡ (kind_token k, r)
      → signature P Q R ((if c then codes "const " else codes "") ++ s)
        ≡ of_token P Q R (kind_token k) c r
  unfolding signature
  signature-pre true s k r word e =
      (λ i. of_first P Q R (next_token-const s i).0 (next_token-const s i).1)
      ∙ (λ i. let p = (ap next_token word.0 ∙ e) i in of_token P Q R p.0 true p.1)
  signature-pre false s k r word e = signature_lem s word.2 ∙ (λ i. of_first P Q R (e i).0 (e i).1)

  -- The text behind a type without qualifiers: `&`, and what follows.
  pub postfix-post :
      (t : Quals → YcpType)
      → ((q : Quals) → clone (t q) ≡ some (t plain))
      → ((p q : Quals) → set_quals q (t p) ≡ t q)
      → is_const (t plain) ≡ false
      → (c r : Bool) (s : Bytes) → (c && r) ≡ false
      → starts b'&' (skip_spaces s) ≡ false
      → postfix P Q R false c
          (t (const_if c))
          (skip_spaces ((if r then codes " &" else codes "") ++ s))
        ≡ behind Q c (t (record { is_const = c; is_reference = r })) (skip_spaces s)
  unfolding postfix skip_spaces
  postfix-post t cl st nc c false s h k = rw k refl
  postfix-post t cl st nc false true s h k =
      rw (refer_lem (t (const_if false)) (t plain) s (cl _), postfix) (rw (nc, st) refl)
  postfix-post t cl st nc true true s h k = cc

  pub of_token-complete :
      (k : Token) (c : Bool) (t : YcpType) (s : Bytes)
      → complete k c ≡ some t
      → of_token P Q R k c s ≡ postfix P Q R false c t s
  unfolding of_token
  of_token-complete k c t s e = rw (e, of_token) refl

  -- The types with parts, where the parts are read.
  pub constructed-list :
      (c : Bool) (s r : Bytes) (t : YcpType)
      → skip_spaces s ≡ s
      → P s ≡ parsed t (b'>' ∷ r)
      → of_token P Q R (kind_token list_t) c (b'<' ∷ s)
        ≡ postfix P Q R false c (list (const_if c) t) (skip_spaces r)
  unfolding of_token next_token skip_spaces
  constructed-list c s r t skipped e = rw (skipped, e) refl

  pub constructed-block :
      (c : Bool) (s r : Bytes) (t : YcpType)
      → skip_spaces s ≡ s
      → P s ≡ parsed t (b'>' ∷ r)
      → of_token P Q R (kind_token block_t) c (b'<' ∷ s)
        ≡ postfix P Q R false c (block (const_if c) t) (skip_spaces r)
  unfolding of_token next_token skip_spaces
  constructed-block c s r t skipped e = rw (skipped, e) refl

  pub constructed-variable :
      (c : Bool) (s r : Bytes) (t : YcpType)
      → skip_spaces s ≡ s
      → P s ≡ parsed t (b'>' ∷ r)
      → of_token P Q R (kind_token variable_t) c (b'<' ∷ s)
        ≡ postfix P Q R false c (variable (const_if c) t) (skip_spaces r)
  unfolding of_token next_token skip_spaces
  constructed-variable c s r t skipped e = rw (skipped, e) refl

  pub constructed-map :
      (c : Bool) (s r u : Bytes) (k v : YcpType)
      → skip_spaces s ≡ s
      → P s ≡ parsed k (codes ", " ++ r)
      → skip_spaces r ≡ r
      → P r ≡ parsed v (b'>' ∷ u)
      → of_token P Q R (kind_token map_t) c (b'<' ∷ s)
        ≡ postfix P Q R false c (map (const_if c) k v) (skip_spaces u)
  unfolding of_token next_token skip_spaces
  constructed-map c s r u k v skipped e skipped_value e' =
      rw (skipped, e) (rw (skipped_value, e') refl)

-- No parameter, one parameter, and the end of the parameters.
module _ (P : Bytes → Parse) (Q : YcpType → Bytes → Parse) (fn t : YcpType) (s : Bytes) where
  pub parameter_round-comma :
      (c : ℕ) (r : Bytes)
      → skip_spaces r ≡ s
      → starts b')' s ≡ false
      → (u : Bytes) → P s ≡ parsed t (b',' ∷ u)
      → parameter_round P Q fn (c ∷ r) ≡ Q (add_parameter fn t) (b',' ∷ u)
  unfolding parameter_round
  parameter_round-comma c r skipped word u e =
      (λ i. parameter_at P Q fn (skipped i)) ∙ rw (word, parameter_at) (rw e refl)

  pub parameter_round-end :
      (c : ℕ) (r : Bytes)
      → skip_spaces r ≡ s
      → starts b')' s ≡ false
      → (u : Bytes) → P s ≡ parsed t (b')' ∷ u)
      → parameter_round P Q fn (c ∷ r) ≡ parsed (add_parameter fn t) u
  unfolding parameter_round
  parameter_round-end c r skipped word u e =
      (λ i. parameter_at P Q fn (skipped i)) ∙ rw (word, parameter_at) (rw e refl)

pub parameter_round-none :
    (P : Bytes → Parse) (Q : YcpType → Bytes → Parse) (fn : YcpType) (s : Bytes) (c : ℕ) (r : Bytes)
    → skip_spaces r ≡ b')' ∷ s
    → parameter_round P Q fn (c ∷ r) ≡ parsed fn s
unfolding parameter_round
parameter_round-none P Q fn s c r e = λ i. parameter_at P Q fn (e i)
