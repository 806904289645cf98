-- ===== src/Types/Flex/Laws.antt =====
-- What Type::unflex leaves of the flex types.
use yast_core.Prelude.{
  ℕ, suc, ◌<◌, ◌≡◌, ◌≢◌, refl, ap, inl, inr, Bool, true, false, Bool-cases, Option, none, some,
  ◌==◌, if◌then◌else◌, arith,
}
use yast_core.Prelude.Fault.{◌>>=◌}
use yast_core.Types.Defs.{
  Quals, plain, YcpType, YcpTypes, base, flex, nflex, variable, list, map, block, tuple,
  function_void, function, nil, cons, set_quals, count, is_flex,
}
use yast_core.Types.Flex.{clone, rebuild_tuple, rebuild_function, substitute, unflex, unflex_each}

-- Every flex inside has a number that satisfies `Left`, where FlexType counts as number 0; no plain
-- Type object is of a flex kind, and every tuple has a component.
abbrev mutual
  pub FlexesIn : (ℕ → Type 0) → YcpType → Type 0
  FlexesIn Left (base k q) = is_flex (base k q) ≡ false
  FlexesIn Left (flex q) = Left 0
  FlexesIn Left (nflex q n) = Left n
  FlexesIn Left (variable q t) = FlexesIn Left t
  FlexesIn Left (list q t) = FlexesIn Left t
  FlexesIn Left (map q k v) = FlexesIn Left k × FlexesIn Left v
  FlexesIn Left (block q t) = FlexesIn Left t
  FlexesIn Left (tuple q ts) = (0 < count ts) × AllFlexesIn Left ts
  FlexesIn Left (function_void q r) = FlexesIn Left r
  FlexesIn Left (function q r p ts) = FlexesIn Left r × AllFlexesIn Left ts

  pub AllFlexesIn : (ℕ → Type 0) → YcpTypes → Type 0
  AllFlexesIn Left nil = Unit
  AllFlexesIn Left (cons t ts) = FlexesIn Left t × AllFlexesIn Left ts

-- No map inside.
abbrev mutual
  pub IsMapFree : YcpType → Type 0
  IsMapFree (base k q) = Unit
  IsMapFree (flex q) = Unit
  IsMapFree (nflex q n) = Unit
  IsMapFree (variable q t) = IsMapFree t
  IsMapFree (list q t) = IsMapFree t
  IsMapFree (map q k v) = ⊥
  IsMapFree (block q t) = IsMapFree t
  IsMapFree (tuple q ts) = AreMapFree ts
  IsMapFree (function_void q r) = IsMapFree r
  IsMapFree (function q r p ts) = IsMapFree r × AreMapFree ts

  pub AreMapFree : YcpTypes → Type 0
  AreMapFree nil = Unit
  AreMapFree (cons t ts) = IsMapFree t × AreMapFree ts

-- The result is there, and its flexes are among those of `Left`.
abbrev pub Cleared : (ℕ → Type 0) → Option YcpType → Type 0
Cleared Left none = ⊥
Cleared Left (some t) = FlexesIn Left t

abbrev ClearedAll : (ℕ → Type 0) → YcpTypes → Option YcpTypes → Type 0
ClearedAll Left ts none = ⊥
ClearedAll Left ts (some us) = AllFlexesIn Left us × (count us ≡ count ts)

module _ (Left : ℕ → Type 0) where
  set_quals-FlexesIn : (q : Quals) (t : YcpType) → FlexesIn Left t → FlexesIn Left (set_quals q t)
  set_quals-FlexesIn q (base k _) h = h
  set_quals-FlexesIn q _ h = h

  Cleared-clone : (t : YcpType) → FlexesIn Left t → Cleared Left (clone t)
  unfolding clone
  Cleared-clone (base k q) h = h
  Cleared-clone (tuple q nil) h = absurd (omega arith)
  Cleared-clone (tuple q (cons t ts)) h = h
  Cleared-clone (function q r p nil) h = h.0
  Cleared-clone (function q r p (cons t ts)) h = h
  Cleared-clone _ h = h

  Cleared-if :
      (b : Bool) (m n : Option YcpType)
      → Cleared Left m
      → Cleared Left n
      → Cleared Left (if b then m else n)
  Cleared-if true m n h k = h
  Cleared-if false m n h k = k

  Cleared-map :
      (o : Option YcpType) (f : YcpType → YcpType)
      → ((t : YcpType) → FlexesIn Left t → FlexesIn Left (f t))
      → Cleared Left o
      → Cleared Left (o >>= λ t. some (f t))
  Cleared-map none f k h = h
  Cleared-map (some t) f k h = k t h

  Cleared-substitute : (q : Quals) (t : YcpType) → FlexesIn Left t → Cleared Left (substitute q t)
  unfolding substitute
  Cleared-substitute q t h =
      Cleared-map (clone t) _ (λ u hu. set_quals-FlexesIn _ u hu) (Cleared-clone t h)

  Cleared-tuple :
      (ts : YcpTypes) (o : Option YcpTypes)
      → 0 < count ts
      → ClearedAll Left ts o
      → Cleared Left (o >>= rebuild_tuple)
  unfolding rebuild_tuple
  Cleared-tuple ts none pos_count h = h
  Cleared-tuple ts (some nil) pos_count h = absurd (omega (arith, h.1))
  Cleared-tuple ts (some (cons u us)) pos_count h = (omega arith, h.0)

  Cleared-function :
      (ts : YcpTypes) (o : Option YcpType) (os : Option YcpTypes)
      → Cleared Left o
      → ClearedAll Left ts os
      → Cleared Left (o >>= λ r. os >>= λ us. some (rebuild_function r us))
  unfolding rebuild_function
  Cleared-function ts none os h k = h
  Cleared-function ts (some r) none h k = k
  Cleared-function ts (some r) (some nil) h k = h
  Cleared-function ts (some r) (some (cons u us)) h k = (h, k.0)

  ClearedAll-cons :
      (t : YcpType) (ts : YcpTypes) (o : Option YcpType) (os : Option YcpTypes)
      → Cleared Left o
      → ClearedAll Left ts os
      → ClearedAll Left (cons t ts) (o >>= λ u. os >>= λ us. some (cons u us))
  ClearedAll-cons t ts none os h k = h
  ClearedAll-cons t ts (some u) none h k = k
  ClearedAll-cons t ts (some u) (some us) h k = ((h, k.0), ap suc k.1)

  module _ (type : YcpType) (number : ℕ) (fine : FlexesIn Left type) where
    abbrev OrNumber : ℕ → Type 0
    OrNumber n = n ≢ number → Left n

    replaced :
        (q : Quals) (n : ℕ) (t : YcpType)
        → OrNumber n
        → (Left n → Cleared Left (clone t))
        → Cleared Left (if n == number then substitute q type else clone t)
    replaced q n t h kept = elim (Bool-cases (n == number)) [
      | inl e ↦ rw e (Cleared-substitute q type fine)
      | inr e ↦ rw e (kept (h (λ p. ground (arith, p, e))))
    ]

    replaced_plain :
        (q : Quals)
        → OrNumber 0
        → Cleared Left (if number == 0 then substitute q type else clone (flex q))
    unfolding clone
    replaced_plain q h = elim (Bool-cases (number == 0)) [
      | inl e ↦ rw e (Cleared-substitute q type fine)
      | inr e ↦ rw e (h (λ p. ground (arith, p, e)))
    ]

    mutual
      unfolding unflex clone

      unflex_clears :
          (t : YcpType) → IsMapFree t → FlexesIn OrNumber t → Cleared Left (unflex t type number)
      unflex_clears (base k q) h g = g
      unflex_clears (flex q) h g = replaced_plain q g
      unflex_clears (nflex q n) h g = replaced q n (nflex q n) g (λ l. l)
      unflex_clears (variable q t) h g =
          Cleared-map (unflex t type number) (variable plain) (λ u k. k) (unflex_clears t h g)
      unflex_clears (list q t) h g =
          Cleared-map (unflex t type number) (list plain) (λ u k. k) (unflex_clears t h g)
      unflex_clears (map q k v) h g = elim h [ ]
      unflex_clears (block q t) h g =
          Cleared-map (unflex t type number) (block plain) (λ u k. k) (unflex_clears t h g)
      unflex_clears (tuple q ts) h g =
          Cleared-tuple ts (unflex_each ts type number) g.0 (unflex_each_clears ts h g.1)
      unflex_clears (function_void q r) h g =
          Cleared-map (unflex r type number) (function_void plain) (λ u k. k) (unflex_clears r h g)
      unflex_clears (function q r p ts) h g =
          Cleared-function ts (unflex r type number) (unflex_each ts type number)
            (unflex_clears r h.0 g.0) (unflex_each_clears ts h.1 g.1)

      unflex_each_clears :
          (ts : YcpTypes)
          → AreMapFree ts
          → AllFlexesIn OrNumber ts
          → ClearedAll Left ts (unflex_each ts type number)
      unflex_each_clears nil h g = (tt, refl)
      unflex_each_clears (cons t ts) h g =
          ClearedAll-cons t ts (unflex t type number) (unflex_each ts type number)
            (unflex_clears t h.0 g.0) (unflex_each_clears ts h.1 g.1)

-- Replacing the flexes of one number in a type without maps by another type leaves no flex but those
-- in `Left`, if the flexes of the other type and those with other numbers are in `Left`. A FlexType
-- is number 0; neither type has an empty tuple or a plain Type object of a flex kind in it.
pub unflex-FlexesIn :
    (Left : ℕ → Type 0) (type : YcpType) (number : ℕ) (t : YcpType)
    → FlexesIn Left type
    → IsMapFree t
    → FlexesIn (λ n. n ≢ number → Left n) t
    → Cleared Left (unflex t type number)
unflex-FlexesIn Left type number t fine = unflex_clears Left type number fine t

module _ (Left : ℕ → Type 0) where
  with_value :
      (o : Option YcpType) (v : YcpType)
      → Cleared Left o
      → (k : YcpType) × FlexesIn Left k
        × ((o >>= λ k'. some (map plain k' v)) ≡ some (map plain k v))
  with_value none v h = elim h [ ]
  with_value (some k) v h = (k, h, refl)

  -- In a map whose key is a flex (number 0), replacing it by a type whose flexes are in `Left` gives
  -- a key whose flexes are, and leaves the value alone, be it a flex too.
  pub unflex-map :
      (q q' : Quals) (v type : YcpType)
      → FlexesIn Left type
      → (k : YcpType) × FlexesIn Left k × (unflex (map q (flex q') v) type 0 ≡ some (map plain k v))
  unfolding unflex
  unflex-map q q' v type fine =
      with_value (substitute q' type) v (Cleared-substitute Left q' type fine)
