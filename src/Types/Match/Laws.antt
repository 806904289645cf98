-- ===== src/Types/Match/Laws.antt =====
-- When a type matches itself, and what a `...` at the end of the expected parameters does.
use yast_core.Prelude.{
  ℕ, suc, ◌+◌, ◌-◌, ◌≤◌, ◌<◌, ◌≡◌, ◌≢◌, ◌∙◌, subst, inl, inr, refl, ap, Bool, true, false, not,
  ◌&&◌, ◌||◌, Option, none, some, ◌==◌, ltb, if◌then◌else◌, arith, Bool-cases, ==_refl, ==_iff,
}
use yast_core.Prelude.Int.{ℤ, pos, negsuc, is_negative}
use yast_core.Prelude.Fault.{◌>>=◌}
use yast_core.Types.Kind.{Kind, error_t}
use yast_core.Types.Defs.{
  Quals, YcpType, YcpTypes, base, flex, nflex, variable, list, map, block, tuple, function_void,
  function, nil, cons, is_error, is_wildcard, error_type, count, nth, parameter_type,
}
use yast_core.Types.Match.{
  basematch, match_base, match_flex_kind, by_basematch, both, match_no_arguments, match, match_each,
}

-- No ErrorT, and no tuple without components.
abbrev mutual
  pub IsMatchable : YcpType → Type 0
  IsMatchable (base k q) = k ≢ error_t
  IsMatchable (flex q) = Unit
  IsMatchable (nflex q n) = Unit
  IsMatchable (variable q t) = IsMatchable t
  IsMatchable (list q t) = IsMatchable t
  IsMatchable (map q k v) = IsMatchable k × IsMatchable v
  IsMatchable (block q t) = IsMatchable t
  IsMatchable (tuple q ts) = (0 < count ts) × AreMatchable ts
  IsMatchable (function_void q r) = IsMatchable r
  IsMatchable (function q r p ts) = (0 < count ts) × IsMatchable r × AreMatchable ts

  pub AreMatchable : YcpTypes → Type 0
  AreMatchable nil = Unit
  AreMatchable (cons t ts) = IsMatchable t × AreMatchable ts

-- What the loop over the parameters finds at each index from `i` on.
abbrev pub Agrees : YcpTypes → (ℕ → Option YcpType) → ℕ → Type 0
Agrees nil expected i = Unit
Agrees (cons t ts) expected i = (expected i ≡ some t) × Agrees ts expected (suc i)

pub Agrees-suc :
    (ts : YcpTypes) (expected : ℕ → Option YcpType) (i : ℕ)
    → Agrees ts (λ j. expected (suc j)) i
    → Agrees ts expected (suc i)
Agrees-suc nil expected i h = tt
Agrees-suc (cons t ts) expected i h = (h.0, Agrees-suc ts expected (suc i) h.1)

Agrees-nth : (ts : YcpTypes) → Agrees ts (nth ts) 0
Agrees-nth nil = tt
Agrees-nth (cons t ts) = (refl, Agrees-suc ts (nth (cons t ts)) 0 (Agrees-nth ts))

pub Agrees-parameter :
    (ts us : YcpTypes) (i : ℕ)
    → Agrees ts (nth us) i
    → Agrees ts (λ j. some (parameter_type us j)) i
unfolding parameter_type
Agrees-parameter nil us i h = tt
Agrees-parameter (cons t ts) us i h = (rw h.0, Agrees-parameter ts us (suc i) h.1)

-- A type is never const where it is not.
no_conflict : (q : Quals) → (q.is_reference && (not q.is_const && q.is_const)) ≡ false
no_conflict q = ground arith

match_base_self : (k : Kind) (q : Quals) → k ≢ error_t → match_base (base k q) (base k q) ≡ pos 0
unfolding match_base
match_base_self error_t q h = absurd (h refl)
match_base_self _ q h = rw (no_conflict q)

if_same : (b : Bool) → (if b then some (pos 0) else some (pos 0)) ≡ some (pos 0)
if_same true = refl
if_same false = refl

last_exists : (t : YcpType) (ts : YcpTypes) → (u : YcpType) × (nth (cons t ts) (count ts) ≡ some u)
last_exists t nil = (t, refl)
last_exists t (cons u us) = last_exists u us

last_of : (ts : YcpTypes) → 0 < count ts → (u : YcpType) × (nth ts (count ts - 1) ≡ some u)
last_of nil h = absurd (omega arith)
last_of (cons t ts) h =
    let (u, e) = last_exists t ts in
    (u, subst (λ (n : ℕ). nth (cons t ts) n ≡ some u) (omega arith) e)

if_never : (b : Bool) → (if b && false then some (negsuc 0) else some (pos 0)) ≡ some (pos 0)
if_never true = refl
if_never false = refl

match_each_if :
    (w : Bool) (o : Option ℤ) → o ≡ some (pos 0) → (if w then some (pos 0) else o) ≡ some (pos 0)
match_each_if true o h = refl
match_each_if false o h = h

mutual
  unfolding match basematch by_basematch both match_flex_kind match_no_arguments

  match_self : (t : YcpType) → IsMatchable t → match t t ≡ some (pos 0)
  match_self (base k q) h = ap some (match_base_self k q h)
  match_self (flex q) h = refl
  match_self (nflex q n) h = refl
  match_self (variable q t) h = rw (no_conflict q, match_self t h)
  match_self (list q t) h = rw (no_conflict q, match_self t h) (simp if_same)
  match_self (map q k v) h = rw (no_conflict q, match_self k h.0, match_self v h.1) (simp if_same)
  match_self (block q t) h = rw (no_conflict q, match_self t h)
  match_self (tuple q ts) h =
      let (u, e) = last_of ts h.0 in
      rw (
        no_conflict q,
        e,
        match_each_self ts (nth ts) (count ts) (is_wildcard u) 0 h.1 (Agrees-nth ts),
      )
  match_self (function_void q r) h = rw (no_conflict q, match_self r h)
  match_self (function q r p ts) h =
      rw
        (
          no_conflict q,
          match_self r h.1,
          ==_refl (count ts),
          match_each_self ts (λ i. some (parameter_type ts i)) (count ts)
              (is_wildcard (parameter_type ts (count ts - 1))) 0 h.2
              (Agrees-parameter ts ts 0 (Agrees-nth ts)),
        )
        (if_never (not (is_wildcard (parameter_type ts (count ts - 1)))))

  match_each_self :
      (ts : YcpTypes) (expected : ℕ → Option YcpType) (esize : ℕ) (wildcard : Bool) (i : ℕ)
      → AreMatchable ts
      → Agrees ts expected i
      → match_each ts expected esize wildcard i ≡ some (pos 0)
  match_each_self nil expected esize wildcard i h agrees = refl
  match_each_self (cons t ts) expected esize wildcard i h agrees =
      rw
        (
          agrees.0,
          match_self t h.0,
          match_each_self ts expected esize wildcard (suc i) h.1 agrees.1,
        )
        (match_each_if (wildcard && ltb esize i) (some (pos 0)) refl)

-- A type matches itself, whatever its qualifiers, unless ErrorT or a tuple without components is in
-- it.
pub match_refl : (t : YcpType) → IsMatchable t → match t t ≡ some (pos 0)
match_refl = match_self

or_true : (b : Bool) → (b || true) ≡ true
or_true true = refl
or_true false = refl

match_error : (t : YcpType) → match t error_type ≡ some (negsuc 0)
unfolding match basematch by_basematch match_flex_kind match_base
match_error (base k q) = rw (or_true (is_error (base k q)))
match_error (flex q) = refl
match_error _ = refl

parameter_type-count : (us : YcpTypes) → parameter_type us (count us) ≡ error_type
unfolding parameter_type
parameter_type-count nil = refl
parameter_type-count (cons u us) = parameter_type-count us

step-ne :
    (m rest : Option ℤ)
    → rest ≢ some (pos 0)
    → (m >>= λ r. if is_negative r then some (negsuc 0) else rest) ≢ some (pos 0)
step-ne none rest h = λ e. cc
step-ne (some (pos n)) rest h = h
step-ne (some (negsuc n)) rest h = λ e. cc

not_beyond : (w : Bool) (n i : ℕ) → i ≤ n → (w && ltb n i) ≡ false
not_beyond w n i h = ground arith

-- The loop comes to the index behind the expected parameters, and Error matches nothing there.
match_each_surplus :
    (ts us : YcpTypes) (wildcard : Bool) (i : ℕ)
    → i ≤ count us
    → count us < i + count ts
    → match_each ts (λ j. some (parameter_type us j)) (count us) wildcard i ≢ some (pos 0)
unfolding match
match_each_surplus nil us wildcard i h k = absurd (omega arith)
match_each_surplus (cons t ts) us wildcard i h k =
    rw (not_beyond wildcard (count us) i h) (elim (Bool-cases (i == count us)) [
      | inl e ↦
          let last : parameter_type us i ≡ error_type =
            ap (parameter_type us) ((==_iff i (count us)).0 e) ∙ parameter_type-count us in
          rw (last, match_error t) (λ p. cc)
      | inr e ↦
          step-ne (match t (parameter_type us i)) _
            (match_each_surplus ts us wildcard (suc i) (ground arith) (omega arith))
    ])

guarded_step-ne :
    (m : Option ℤ) (c : Bool) (rest : Option ℤ)
    → rest ≢ some (pos 0)
    → (m >>= λ r. if is_negative r || c then some (negsuc 0) else rest) ≢ some (pos 0)
guarded_step-ne none c rest h = λ e. cc
guarded_step-ne (some (pos n)) true rest h = λ e. cc
guarded_step-ne (some (pos n)) false rest h = h
guarded_step-ne (some (negsuc n)) c rest h = λ e. cc

by_basematch-ne :
    (b : Bool) (parts : Option ℤ)
    → parts ≢ some (pos 0)
    → by_basematch (if b then negsuc 0 else pos 0) true parts ≢ some (pos 0)
unfolding by_basematch
by_basematch-ne true parts h = λ e. cc
by_basematch-ne false parts h = h

-- A function type does not match one that expects fewer parameters, also where the last of these is
-- the wildcard `...`.
pub match-surplus :
    (q p q' p' : Quals) (r r' : YcpType) (ts us : YcpTypes)
    → count us < count ts
    → match (function q r p ts) (function q' r' p' us) ≢ some (pos 0)
unfolding match basematch
match-surplus q p q' p' r r' ts us h =
    let each =
      match_each_surplus ts us (is_wildcard (parameter_type us (count us - 1))) 0 (omega arith)
        (omega arith) in
    by_basematch-ne (q'.is_reference && (not q'.is_const && q.is_const)) _
      (guarded_step-ne (match r r') _ _ each)
