-- ===== src/Types/Equals/Laws.antt =====
-- What Type::equals makes of function types and tuples.
use yast_core.Prelude.{ℕ, suc, ◌≡◌, ◌≢◌, refl, true, false, some, arith}
use yast_core.Types.Kind.{same_kind_refl}
use yast_core.Types.Defs.{
  Quals, YcpType, YcpTypes, base, flex, nflex, variable, list, map, block, tuple, function_void,
  function, nil, cons, count, nth, parameter_type,
}
use yast_core.Types.Match.Laws.{Agrees, Agrees-suc, Agrees-parameter}
use yast_core.Types.Equals.{equals_base, and_then, tuple_verdict, equals, equals_each}

-- No tuple outside the parameters of a function, whose own tuple has a component.
abbrev mutual
  pub IsTupleFree : YcpType → Type 0
  IsTupleFree (base k q) = Unit
  IsTupleFree (flex q) = Unit
  IsTupleFree (nflex q n) = Unit
  IsTupleFree (variable q t) = IsTupleFree t
  IsTupleFree (list q t) = IsTupleFree t
  IsTupleFree (map q k v) = IsTupleFree k × IsTupleFree v
  IsTupleFree (block q t) = IsTupleFree t
  IsTupleFree (tuple q ts) = ⊥
  IsTupleFree (function_void q r) = IsTupleFree r
  IsTupleFree (function q r p ts) = IsTupleFree r × AreTupleFree ts

  pub AreTupleFree : YcpTypes → Type 0
  AreTupleFree nil = Unit
  AreTupleFree (cons t ts) = IsTupleFree t × AreTupleFree ts

abbrev pub append : YcpTypes → YcpTypes → YcpTypes
append nil us = us
append (cons t ts) us = cons t (append ts us)

Agrees-append : (ts us : YcpTypes) → Agrees ts (nth (append ts us)) 0
Agrees-append nil us = tt
Agrees-append (cons t ts) us =
    (refl, Agrees-suc ts (nth (append (cons t ts) us)) 0 (Agrees-append ts us))

append_nothing : (ts : YcpTypes) → append ts nil ≡ ts
append_nothing nil = refl
append_nothing (cons t ts) = rw (append_nothing ts)

some_path : {t u : YcpType} → some t ≡ some u → t ≡ u
some_path h = cc

mutual
  unfolding equals equals_base and_then

  equals_self : (t : YcpType) → IsTupleFree t → equals t t ≡ some true
  equals_self (base k q) h = rw (same_kind_refl k)
  equals_self (flex q) h = refl
  equals_self (nflex q n) h = refl
  equals_self (variable q t) h = equals_self t h
  equals_self (list q t) h = equals_self t h
  equals_self (map q k v) h = rw (equals_self v h.1, equals_self k h.0)
  equals_self (block q t) h = equals_self t h
  equals_self (tuple q ts) h = elim h [ ]
  equals_self (function_void q r) h = rw (equals_self r h)
  equals_self (function q r p ts) h = rw (
    equals_self r h.0,
    equals_each_self ts ts 0 h.1
        (Agrees-parameter ts ts 0 (rw (append_nothing ts) at (Agrees-append ts nil))),
  )

  equals_each_self :
      (ts us : YcpTypes) (i : ℕ)
      → AreTupleFree ts
      → Agrees ts (λ j. some (parameter_type us j)) i
      → equals_each ts us i ≡ some true
  equals_each_self nil us i h agrees = refl
  equals_each_self (cons t ts) us i h agrees =
      rw (some_path agrees.0, equals_self t h.0, equals_each_self ts us (suc i) h.1 agrees.1)

-- A type that holds no tuple, other than the parameters of functions, equals itself.
pub equals_refl : (t : YcpType) → IsTupleFree t → equals t t ≡ some true
equals_refl = equals_self

-- A function type equals every one that has its result and begins with its parameters, however
-- many more follow, if the result and these parameters hold no tuple other than the parameters of
-- functions.
pub equals-append :
    (q p q' p' : Quals) (r : YcpType) (ts us : YcpTypes)
    → IsTupleFree r
    → AreTupleFree ts
    → equals (function q r p ts) (function q' r p' (append ts us)) ≡ some true
unfolding equals and_then
equals-append q p q' p' r ts us hr h = rw (
  equals_self r hr,
  equals_each_self ts (append ts us) 0 h
      (Agrees-parameter ts (append ts us) 0 (Agrees-append ts us)),
)

-- Tuples with no or several components equal no tuple, not even themselves.
pub equals-tuple :
    (q q' : Quals) (ts us : YcpTypes)
    → count ts ≢ 1
    → equals (tuple q ts) (tuple q' us) ≡ some false
unfolding equals tuple_verdict
equals-tuple q q' ts us h = ground arith
