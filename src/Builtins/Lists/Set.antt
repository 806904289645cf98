-- ===== src/Builtins/Lists/Set.antt =====
-- Lists as sets.
use yast_core.Prelude.{
  ◌≡◌, ◌≢◌, refl, sym, ap, ◌∙◌, Bool, true, false, not, ◌||◌, if◌then◌else◌, arith,
}
use yast_core.Values.Order.{YcpOrder, less, equal, greater, fault, flip}
use yast_core.Values.Defs.{Value, Values, Doubles, list, nil, cons}
use yast_core.Values.Compare.{compare}
use yast_core.Values.Compare.Key.{Ranked, IsWhole, AreWhole}
use yast_core.Values.Compare.Laws.{compare-equal, compare-flip, compare-ne-fault, compare_trans}
use yast_core.Values.List.{is_equal, contains}
use yast_core.Values.List.Laws.{append_all-nil}
use yast_core.Values.Map.{is_less}
use yast_core.Builtins.Lists.{set_insert, insert_all, l_toset}

or_false : (a : Bool) → a || false ≡ a
or_false true = refl
or_false false = refl

or_swap : (a b c : Bool) → a || (b || c) ≡ b || (a || c)
or_swap a b c = ground arith

or_same : (a b c : Bool) → a ≡ b → a || c ≡ b || (a || c)
or_same true true c e = refl
or_same true false c e = refl
or_same false true c e = cc
or_same false false c e = refl

or_move : (a b c : Bool) → a || b || c ≡ b || (a || c)
or_move a b c = ground arith

module _ (doubles : Doubles) (ranked : Ranked doubles) where
  -- The first value is less than each of the others, and so on.
  abbrev pub Below : Value → Values → Type 0
  Below v nil = Unit
  Below v (cons w ws) = (compare doubles v w ≡ less) × Below v ws

  abbrev pub IsAscending : Values → Type 0
  IsAscending nil = Unit
  IsAscending (cons v vs) = Below v vs × IsAscending vs

  Below-trans :
      (u v : Value) (ws : Values)
      → IsWhole doubles ranked u
      → IsWhole doubles ranked v
      → AreWhole doubles ranked ws
      → compare doubles u v ≡ less
      → Below v ws
      → Below u ws
  Below-trans u v nil hu hv hw e b = tt
  Below-trans u v (cons w ws) hu hv hw e b = (
    compare_trans doubles ranked u v w hu hv (hw.0) e (b.0),
    Below-trans u v ws hu hv (hw.1) e (b.1),
  )

  -- The three cases of one step of the insertion.
  step :
      (P : Values → Type 0) (v w : Value) (ws : Values)
      → IsWhole doubles ranked v
      → IsWhole doubles ranked w
      → (compare doubles w v ≡ less → P (cons w (set_insert doubles v ws)))
      → (compare doubles w v ≡ equal → P (cons w ws))
      → (compare doubles v w ≡ less → P (cons v (cons w ws)))
      → P (set_insert doubles v (cons w ws))
  unfolding set_insert
  step P v w ws hv hw below same above =
      by_order (compare doubles w v) (compare doubles v w) (compare-flip doubles ranked w v hw hv)
        (compare-ne-fault doubles ranked w v hw hv) below same above
    where
      by_order :
          (o q : YcpOrder)
          → q ≡ flip o
          → o ≢ fault
          → (o ≡ less → P (cons w (set_insert doubles v ws)))
          → (o ≡ equal → P (cons w ws))
          → (q ≡ less → P (cons v (cons w ws)))
          → P (
              if is_less o
              then cons w (set_insert doubles v ws)
              else if not (is_less q)
              then cons w ws
              else cons v (cons w ws))
      by_order less q e n b s a = b refl
      by_order equal q e n b s a = rw e (s refl)
      by_order greater q e n b s a = rw e (a e)
      by_order fault q e n b s a = absurd (n refl)

  AreWhole-set_insert :
      (v : Value) (ws : Values)
      → IsWhole doubles ranked v
      → AreWhole doubles ranked ws
      → AreWhole doubles ranked (set_insert doubles v ws)
  AreWhole-set_insert v nil hv hw = unfold set_insert in (hv, tt)
  AreWhole-set_insert v (cons w ws) hv hw =
      step (AreWhole doubles ranked) v w ws hv (hw.0)
        (λ e. (hw.0, AreWhole-set_insert v ws hv (hw.1))) (λ e. hw) (λ e. (hv, hw))

  set_insert-Below :
      (u v : Value) (ws : Values)
      → IsWhole doubles ranked v
      → AreWhole doubles ranked ws
      → compare doubles u v ≡ less
      → Below u ws
      → Below u (set_insert doubles v ws)
  set_insert-Below u v nil hv hw e b = unfold set_insert in (e, tt)
  set_insert-Below u v (cons w ws) hv hw e b =
      step (Below u) v w ws hv (hw.0) (λ z. (b.0, set_insert-Below u v ws hv (hw.1) e (b.1)))
        (λ z. b) (λ z. (e, b))

  set_insert-IsAscending :
      (v : Value) (ws : Values)
      → IsWhole doubles ranked v
      → AreWhole doubles ranked ws
      → IsAscending ws
      → IsAscending (set_insert doubles v ws)
  set_insert-IsAscending v nil hv hw a = unfold set_insert in (tt, tt)
  set_insert-IsAscending v (cons w ws) hv hw a =
      step IsAscending v w ws hv (hw.0)
        (λ e.
          (set_insert-Below w v ws hv (hw.1) e (a.0), set_insert-IsAscending v ws hv (hw.1) (a.1)))
        (λ e. a) (λ e. ((e, Below-trans v w ws hv (hw.0) (hw.1) e (a.0)), a))

  contains-set_insert :
      (v : Value) (ws : Values) (x : Value)
      → IsWhole doubles ranked v
      → AreWhole doubles ranked ws
      → IsWhole doubles ranked x
      → contains doubles (set_insert doubles v ws) x
        ≡ is_equal (compare doubles v x) || contains doubles ws x
  unfolding contains
  contains-set_insert v nil x hv hw hx = unfold set_insert in refl
  contains-set_insert v (cons w ws) x hv hw hx =
      step
        (λ us.
          contains doubles us x ≡ is_equal (compare doubles v x) || contains doubles (cons w ws) x)
        v w ws hv (hw.0)
        (λ e.
          ap (λ b. is_equal (compare doubles w x) || b) (contains-set_insert v ws x hv (hw.1) hx)
          ∙ or_swap (is_equal (compare doubles w x)) (is_equal (compare doubles v x))
              (contains doubles ws x))
        (λ e.
          or_same (is_equal (compare doubles w x)) (is_equal (compare doubles v x))
            (contains doubles ws x)
            (ap is_equal (compare-equal doubles ranked w v x (hw.0) hv hx e)))
        (λ e. refl)

  AreWhole-insert_all :
      (new vs : Values)
      → AreWhole doubles ranked new
      → AreWhole doubles ranked vs
      → IsAscending new
      → AreWhole doubles ranked (insert_all doubles new vs)
        × IsAscending (insert_all doubles new vs)
  unfolding insert_all
  AreWhole-insert_all new nil hn hs a = (hn, a)
  AreWhole-insert_all new (cons v vs) hn hs a =
      AreWhole-insert_all (set_insert doubles v new) vs (AreWhole-set_insert v new (hs.0) hn) (hs.1)
        (set_insert-IsAscending v new (hs.0) hn a)

  contains-insert_all :
      (new vs : Values) (x : Value)
      → AreWhole doubles ranked new
      → AreWhole doubles ranked vs
      → IsWhole doubles ranked x
      → contains doubles (insert_all doubles new vs) x
        ≡ contains doubles new x || contains doubles vs x
  unfolding insert_all contains
  contains-insert_all new nil x hn hs hx = sym (or_false (contains doubles new x))
  contains-insert_all new (cons v vs) x hn hs hx =
      contains-insert_all (set_insert doubles v new) vs x (AreWhole-set_insert v new (hs.0) hn)
        (hs.1) hx
      ∙ ap (λ b. b || contains doubles vs x) (contains-set_insert v new x (hs.0) hn hx)
      ∙ or_move (is_equal (compare doubles v x)) (contains doubles new x) (contains doubles vs x)

  -- toset gives a list in strictly ascending order, so without duplicates, that contains exactly
  -- what the list contains, for values without null handles and NaN, where doubles are ordered by a
  -- rank.
  pub l_toset-IsAscending :
      (vs : Values) (x : Value)
      → AreWhole doubles ranked vs
      → IsWhole doubles ranked x
      → (us : Values) × (l_toset doubles vs ≡ list us)
        × IsAscending us
        × (contains doubles us x ≡ contains doubles vs x)
  unfolding l_toset
  l_toset-IsAscending vs x hv hx = (
    insert_all doubles nil vs,
    ap list (append_all-nil (insert_all doubles nil vs)),
    (AreWhole-insert_all nil vs tt hv tt).1,
    contains-insert_all nil vs x tt hv hx ∙ unfold contains in refl,
  )
