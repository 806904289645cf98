-- ===== src/Types/Signature/Ends.antt =====
-- Type::fromSignature ends: each call of it on the rest of the text is behind a character at least.
pub mod Tokens
pub mod Round
pub mod Limit
use yast_core.Prelude.{
  ℕ, suc, ◌≤◌, ◌≡◌, refl, inl, inr, Bool, true, false, Option, none, some, [], ◌∷◌, Bytes, length,
  Bool-cases, Option-cases, ◌==◌, arith,
}
use yast_core.Types.Defs.{YcpType}
use yast_core.Types.Flex.{clone}
use yast_core.Types.Signature.{
  Token, sign_token, next_token, Parse, parsed, failed, no_fuel, ◌>>=◌, when_sign, expect,
  step_over, starts, refer, drop_one, close, close_tuple,
}
use yast_core.Types.Signature.Ends.Tokens.{length-skip_spaces, next_token-Shrinks}

-- It ends, and what it leaves of the text is at most `n` long.
abbrev pub Ends : ℕ → Parse → Type 0
Ends n no_fuel = ⊥
Ends n failed = Unit
Ends n (parsed t s) = length s ≤ n

pub Ends-bind :
    (m n : ℕ) (o : Parse) (f : YcpType × Bytes → Parse)
    → Ends m o
    → ((t : YcpType) (s : Bytes) → length s ≤ m → Ends n (f (t, s)))
    → Ends n (o >>= f)
Ends-bind m n no_fuel f h k = h
Ends-bind m n failed f h k = tt
Ends-bind m n (parsed t s) f h k = k t s h

pub Ends-when_sign : (n c : ℕ) (t : Token) (o : Parse) → Ends n o → Ends n (when_sign c t o)
Ends-when_sign n c (sign_token d) o e = elim (Bool-cases (d == c)) [
  | inl p ↦ rw p e
  | inr p ↦ rw p tt
]
Ends-when_sign n c _ o e = tt

pub Ends-expect :
    (n c : ℕ) (s : Bytes) (k : Bytes → Parse)
    → ((r : Bytes) → length r ≤ length s → Ends n (k r))
    → Ends n (expect c s k)
Ends-expect n c s k h = Ends-when_sign n c (next_token s).0 _ (h _ (next_token-Shrinks s).0)

pub length-drop_one : (c : ℕ) (s : Bytes) → starts c s ≡ true → suc (length (drop_one s)) ≡ length s
unfolding starts drop_one
length-drop_one c [] h = cc
length-drop_one c (d ∷ s) h = refl

pub length-step_over :
    (c : ℕ) (s : Bytes) → starts c s ≡ true → suc (length (step_over s)) ≤ length s
unfolding starts step_over
length-step_over c [] h = cc
length-step_over c (d ∷ s) h = omega (arith, length-skip_spaces s)

pub Ends-refer : (t : YcpType) (s : Bytes) → Ends (length s) (refer t s)
unfolding refer
Ends-refer t s = elim (Bool-cases (starts b'&' s)) [
  | inl e ↦ elim (Option-cases (clone t)) [
    | inl f ↦ rw (e, refer) (rw (f, refer) tt)
    | inr (u, f) ↦ rw (e, refer) (rw (f, refer) (omega (arith, length-step_over b'&' s e)))
  ]
  | inr e ↦ rw (e, refer) (omega arith)
]

pub Ends-close : (n c : ℕ) (t : YcpType) (s : Bytes) → length s ≤ n → Ends n (close c t s)
unfolding close
Ends-close n c t s h = elim (Bool-cases (starts c s)) [
  | inl e ↦ rw e (omega (arith, length-drop_one c s e))
  | inr e ↦ rw e tt
]

pub Ends-close_tuple : (n : ℕ) (t : YcpType) (s : Bytes) → length s ≤ n → Ends n (close_tuple t s)
unfolding close_tuple
Ends-close_tuple n t s h = elim (Bool-cases (starts b'>' s)) [ inl e ↦ rw e h | inr e ↦ rw e tt ]

pub Ends-if :
    (n : ℕ) (b : Bool) (o u : Parse)
    → (b ≡ true → Ends n o)
    → (b ≡ false → Ends n u)
    → Ends n (elim b [ true ↦ o | false ↦ u ])
Ends-if n true o u h k = h refl
Ends-if n false o u h k = k refl

pub Ends-option :
    (n : ℕ) (o : Option YcpType) (f : YcpType → Parse)
    → ((t : YcpType) → Ends n (f t))
    → Ends n (elim o [ none ↦ failed | some t ↦ f t ])
Ends-option n none f h = tt
Ends-option n (some t) f h = h t

pub Ends-weaken : (m n : ℕ) (o : Parse) → m ≤ n → Ends m o → Ends n o
Ends-weaken m n no_fuel h e = e
Ends-weaken m n failed h e = tt
Ends-weaken m n (parsed t s) h e = omega arith
