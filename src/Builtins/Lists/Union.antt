-- ===== src/Builtins/Lists/Union.antt =====
-- The union of two lists.
use yast_core.Prelude.{
  ◌≡◌, refl, sym, ap, ◌∙◌, Bool, true, false, ◌||◌, Bool-cases, inl, inr, arith,
}
use yast_core.Values.Order.{YcpOrder, equal}
use yast_core.Values.Defs.{Value, Values, Doubles, list, nil, cons}
use yast_core.Values.Compare.{compare}
use yast_core.Values.Compare.Key.{Ranked, IsWhole, AreWhole}
use yast_core.Values.Compare.Laws.{compare-equal}
use yast_core.Values.List.{push_back, is_equal, contains}
use yast_core.Builtins.Lists.{add_new, l_unionlist}

or_false : (a : Bool) → a || false ≡ a
or_false true = refl
or_false false = refl

is_equal-eq : (o : YcpOrder) → is_equal o ≡ true → o ≡ equal
is_equal-eq equal h = refl
is_equal-eq o h = cc

or_assoc : (a b c : Bool) → (a || b) || c ≡ a || (b || c)
or_assoc a b c = ground arith

or_right : (a b : Bool) → b ≡ true → a || b ≡ true
or_right true b h = refl
or_right false b h = h

or_absorb : (a b c : Bool) → (b ≡ true → a ≡ true) → a || c ≡ a || (b || c)
or_absorb true b c h = refl
or_absorb false true c h = let e = h refl in cc
or_absorb false false c h = refl

module _ (doubles : Doubles) (ranked : Ranked doubles) where
  AreWhole-push_back :
      (vs : Values) (v : Value)
      → AreWhole doubles ranked vs
      → IsWhole doubles ranked v
      → AreWhole doubles ranked (push_back vs v)
  unfolding push_back
  AreWhole-push_back nil v h k = (k, tt)
  AreWhole-push_back (cons w ws) v h k = (h.0, AreWhole-push_back ws v (h.1) k)

  contains-push_back :
      (vs : Values) (v x : Value)
      → contains doubles (push_back vs v) x
        ≡ contains doubles vs x || is_equal (compare doubles v x)
  unfolding push_back contains
  contains-push_back nil v x = or_false (is_equal (compare doubles v x))
  contains-push_back (cons w ws) v x =
      ap (λ b. is_equal (compare doubles w x) || b) (contains-push_back ws v x)
      ∙ sym (
          or_assoc (is_equal (compare doubles w x)) (contains doubles ws x)
            (is_equal (compare doubles v x)))

  contains-alike :
      (vs : Values) (v x : Value)
      → AreWhole doubles ranked vs
      → IsWhole doubles ranked v
      → IsWhole doubles ranked x
      → contains doubles vs v ≡ true
      → is_equal (compare doubles v x) ≡ true
      → contains doubles vs x ≡ true
  unfolding contains
  contains-alike nil v x hs hv hx h e = cc
  contains-alike (cons w ws) v x hs hv hx h e = elim (Bool-cases (is_equal (compare doubles w v))) [
    | inl k ↦
        let same =
          compare-equal doubles ranked w v x (hs.0) hv hx (is_equal-eq (compare doubles w v) k) in
        rw (same, e) refl
    | inr k ↦
        or_right (is_equal (compare doubles w x)) (contains doubles ws x)
          (contains-alike ws v x (hs.1) hv hx (rw k at h) e)
  ]

  contains-add_new :
      (new vs : Values) (x : Value)
      → AreWhole doubles ranked new
      → AreWhole doubles ranked vs
      → IsWhole doubles ranked x
      → contains doubles (add_new doubles new vs) x
        ≡ contains doubles new x || contains doubles vs x
  unfolding add_new contains
  contains-add_new new nil x hn hs hx = sym (or_false (contains doubles new x))
  contains-add_new new (cons v vs) x hn hs hx = elim (Bool-cases (contains doubles new v)) [
    | inl k ↦ rw k (
        contains-add_new new vs x hn (hs.1) hx
        ∙ or_absorb (contains doubles new x) (is_equal (compare doubles v x))
            (contains doubles vs x) (contains-alike new v x hn (hs.0) hx k))
    | inr k ↦ rw k (
        contains-add_new (push_back new v) vs x (AreWhole-push_back new v hn (hs.0)) (hs.1) hx
        ∙ ap (λ b. b || contains doubles vs x) (contains-push_back new v x)
        ∙ or_assoc (contains doubles new x) (is_equal (compare doubles v x))
            (contains doubles vs x))
  ]

  AreWhole-add_new :
      (new vs : Values)
      → AreWhole doubles ranked new
      → AreWhole doubles ranked vs
      → AreWhole doubles ranked (add_new doubles new vs)
  unfolding add_new
  AreWhole-add_new new nil hn hs = hn
  AreWhole-add_new new (cons v vs) hn hs = elim (Bool-cases (contains doubles new v)) [
    | inl k ↦ rw k (AreWhole-add_new new vs hn (hs.1))
    | inr k ↦
        rw k (AreWhole-add_new (push_back new v) vs (AreWhole-push_back new v hn (hs.0)) (hs.1))
  ]

  -- The union of two lists contains exactly what one of them contains, for values without null
  -- handles and NaN, where doubles are ordered by a rank.
  pub l_unionlist-contains :
      (vs ws : Values) (x : Value)
      → AreWhole doubles ranked vs
      → AreWhole doubles ranked ws
      → IsWhole doubles ranked x
      → (us : Values) × (l_unionlist doubles (list vs) (list ws) ≡ list us)
        × (contains doubles us x ≡ contains doubles vs x || contains doubles ws x)
  unfolding l_unionlist contains
  l_unionlist-contains vs ws x hv hw hx = (
    add_new doubles (add_new doubles nil vs) ws,
    refl,
    contains-add_new (add_new doubles nil vs) ws x (AreWhole-add_new nil vs tt hv) hw hx
        ∙ ap (λ b. b || contains doubles ws x) (contains-add_new nil vs x tt hv hx),
  )
