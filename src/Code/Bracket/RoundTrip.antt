-- ===== src/Code/Bracket/RoundTrip.antt =====
-- What a bracket assignment stores, a bracket access finds.
use yast_core.Prelude.{
  Bytes, ℕ, ◌≡◌, ◌≢◌, ◌<◌, ◌⊎◌, inl, inr, refl, sym, ap, ◌∙◌, Bool, true, false, not, ◌&&◌, Option,
  none, some, if◌then◌else◌, ==_refl,
}
use yast_core.Prelude.Int.{pos, to_int-pos}
use yast_core.Prelude.Fault.{◌>>=◌}
use yast_core.Values.Defs.{
  Value, Values, Pairs, Doubles, null, integer, list, term, map, nil, cons, is_null, string, symbol,
}
use yast_core.Values.List.{set, value}
use yast_core.Values.List.Laws.{value-set}
use yast_core.Values.Map
use yast_core.Values.Map.Keys.{IsKey, key_refl}
use yast_core.Values.Map.Laws.{IsSorted, add-key, value-add}
use yast_core.Values.Map.Copy.{functional_add-add}
use yast_core.Code.State.{void_if_null}
use yast_core.Code.Bracket.{select, is_last, stored, commit}

-- The indices lead through the value: an index of a list or a term is not negative and fits `int`,
-- and an index of a map is a proper key, until they are used up or there is no value.
unfoldable pub LeadsThrough : Doubles → Value → Values → Type 0
LeadsThrough doubles u nil = Unit
LeadsThrough doubles null is = Unit
LeadsThrough doubles (list vs) (cons (integer (pos n)) is) =
    (n < 2147483648) × LeadsThrough doubles (value vs (pos n)) is
LeadsThrough doubles (term s vs) (cons (integer (pos n)) is) =
    (n < 2147483648) × LeadsThrough doubles (value vs (pos n)) is
LeadsThrough doubles (map m) (cons k is) =
    IsKey k × IsSorted doubles m × LeadsThrough doubles (Map.value doubles k m) is
LeadsThrough doubles u (cons i is) = ⊥

value-set_same : (vs : Values) (n : ℕ) (v : Value) → value (set vs (pos n) v) (pos n) ≡ v
value-set_same vs n v = value-set vs n v n ∙ rw (==_refl n) refl

select-null : (doubles : Doubles) (is : Values) → select doubles null is ≡ null
unfolding select
select-null doubles nil = refl
select-null doubles (cons null is) = refl
select-null doubles (cons i is) = refl

not_null : (u : Value) → u ≢ null → (is_null u ≡ false) × (void_if_null u ≡ u)
not_null null h = absurd (h refl)
not_null u h = (refl, refl)

map_value :
    (doubles : Doubles) (k u : Value) (m : Pairs)
    → IsKey k
    → IsSorted doubles m
    → Map.value doubles k (Map.put doubles k u m) ≡ u
map_value doubles k u m hk s =
    let h =
      rw (add-key doubles k u m hk, key_refl doubles k hk) at (value-add doubles k k u m hk hk s) in
    cc

map_set :
    (doubles : Doubles) (k u : Value) (m : Pairs)
    → IsKey k
    → IsSorted doubles m
    → (n : Pairs) × (Map.functional_add doubles k u m ≡ some (map n)) × (Map.value doubles k n ≡ u)
map_set doubles k u m hk s = (
  Map.put doubles k u m,
  functional_add-add doubles k u m hk s ∙ rw (add-key doubles k u m hk) refl,
  map_value doubles k u m hk s,
)

-- What the recursive call gives.
abbrev Found : Doubles → Values → Value → Value → Type 0
Found doubles is v u = ((is_last is ≡ false) × (u ≡ null)) ⊎ (select doubles u is ≡ v)

drop_test :
    (l b : Bool) (o p : Option Value)
    → b ≡ false
    → (if not l && b then some null else o) ≡ p
    → o ≡ p
drop_test true b o p e h = h
drop_test false true o p e h = cc
drop_test false false o p e h = h

stored-cases :
    (doubles : Doubles) (is : Values) (v u w : Value) (store : Value → Option Value)
    → v ≢ null
    → Found doubles is v u
    → stored is u store ≡ some w
    → (w ≡ null) ⊎ ((store u ≡ some w) × (select doubles u is ≡ v))
stored-cases doubles nil v u w store n (inl (l, e)) h = cc
stored-cases doubles (cons i is) v u w store n (inl (l, e)) h = let h' = rw e at h in inl cc
stored-cases doubles is v u w store n (inr e) h =
    let (a, b) =
      not_null u λ z. n (sym e ∙ ap (λ x. select doubles x is) z ∙ select-null doubles is) in
    inr (
      ap store (sym b) ∙ drop_test (is_last is) (is_null u) (store (void_if_null u)) (some w) a h,
      e,
    )

bind-some :
    (m : Option Value) (k : Value → Option Value) (w : Value)
    → (m >>= k) ≡ some w
    → (a : Value) × (m ≡ some a) × (k a ≡ some w)
bind-some none k w h = cc
bind-some (some a) k w h = (a, refl, h)

-- One index of the assignment, where access by it finds what is stored.
assign_step :
    (doubles : Doubles) (i : Value) (is : Values) (v w : Value) (m : Option Value)
    (store : Value → Option Value)
    → v ≢ null
    → ((a : Value) → m ≡ some a → Found doubles is v a)
    → ((a x : Value) → store a ≡ some x → select doubles x (cons i is) ≡ select doubles a is)
    → (m >>= λ a. stored is a store) ≡ some w
    → Found doubles (cons i is) v w
assign_step doubles i is v w m store n found access h =
    let (a, e, k) = bind-some m (λ a. stored is a store) w h in
    elim (stored-cases doubles is v a w store n (found a e) k) [
      | inl z ↦ inl (refl, z)
      | inr (st, fd) ↦ inr (access a w st ∙ fd)
    ]

set-access :
    (doubles : Doubles) (vs is : Values) (n : ℕ) (a : Value)
    → select doubles (value (set vs (pos n) a) (pos n)) is ≡ select doubles a is
set-access doubles vs is n a = ap (λ x. select doubles x is) (value-set_same vs n a)

list-access :
    (doubles : Doubles) (vs is : Values) (n : ℕ) (a x : Value)
    → some (list (set vs (pos n) a)) ≡ some x
    → select doubles x (cons (integer (pos n)) is) ≡ select doubles a is
unfolding select
list-access doubles vs is n a x e =
    let p : list (set vs (pos n) a) ≡ x = cc in rw (← p) (set-access doubles vs is n a)

term-access :
    (doubles : Doubles) (s : Bytes) (vs is : Values) (n : ℕ) (a x : Value)
    → some (term s (set vs (pos n) a)) ≡ some x
    → select doubles x (cons (integer (pos n)) is) ≡ select doubles a is
unfolding select
term-access doubles s vs is n a x e =
    let p : term s (set vs (pos n) a) ≡ x = cc in rw (← p) (set-access doubles vs is n a)

select-map :
    (doubles : Doubles) (k : Value) (m : Pairs) (is : Values)
    → IsKey k
    → select doubles (map m) (cons k is) ≡ select doubles (Map.value doubles k m) is
unfolding select
select-map doubles (string s) m is h = refl
select-map doubles (integer i) m is h = refl
select-map doubles (symbol s) m is h = refl
select-map doubles k m is h = absurd h

commit-map :
    (doubles : Doubles) (k v : Value) (m : Pairs) (is : Values)
    → IsKey k
    → commit doubles (map m) (cons k is) v ≡ (
        commit doubles (Map.value doubles k m) is v >>= λ a.
        stored is a λ x. Map.functional_add doubles k x m)
unfolding commit
commit-map doubles (string s) v m is h = refl
commit-map doubles (integer i) v m is h = refl
commit-map doubles (symbol s) v m is h = refl
commit-map doubles k v m is h = absurd h

map-access :
    (doubles : Doubles) (k : Value) (m : Pairs) (is : Values) (a x : Value)
    → IsKey k
    → IsSorted doubles m
    → Map.functional_add doubles k a m ≡ some x
    → select doubles x (cons k is) ≡ select doubles a is
map-access doubles k m is a x hk s e =
    let (n, f, g) = map_set doubles k a m hk s in
    let p : map n ≡ x = cc in
    rw (← p) (select-map doubles k n is hk ∙ ap (λ y. select doubles y is) g)

-- A bracket assignment of a value that is not null, with indices that lead through the variable's
-- value, gives null, which happens with some index only and stores nothing, or else a new value
-- from which a bracket access with the same indices gets the one that was assigned.
pub select-commit :
    (doubles : Doubles) (is : Values) (u v w : Value)
    → LeadsThrough doubles u is
    → v ≢ null
    → commit doubles u is v ≡ some w
    → ((is_last is ≡ false) × (w ≡ null)) ⊎ (select doubles w is ≡ v)
unfolding commit LeadsThrough select
select-commit doubles nil u v w l n h = inr (cc)
select-commit doubles (cons i is) null v w l n h = inl (refl, cc)
select-commit doubles (cons (integer (pos m)) is) (list vs) v w l n h =
    assign_step doubles (integer (pos m)) is v w (commit doubles (value vs (pos m)) is v)
      (λ x. some (list (set vs (pos m) x))) n
      (λ a e. select-commit doubles is (value vs (pos m)) v a (l.1) n e)
      (list-access doubles vs is m) (rw (to_int-pos m (l.0)) at h)
select-commit doubles (cons (integer (pos m)) is) (term s vs) v w l n h =
    assign_step doubles (integer (pos m)) is v w (commit doubles (value vs (pos m)) is v)
      (λ x. some (term s (set vs (pos m) x))) n
      (λ a e. select-commit doubles is (value vs (pos m)) v a (l.1) n e)
      (term-access doubles s vs is m) (rw (to_int-pos m (l.0)) at h)
select-commit doubles (cons k is) (map m) v w l n h =
    assign_step doubles k is v w (commit doubles (Map.value doubles k m) is v)
      (λ x. Map.functional_add doubles k x m) n
      (λ a e. select-commit doubles is (Map.value doubles k m) v a (l.2) n e)
      (λ a x. map-access doubles k m is a x (l.0) (l.1))
      (sym (commit-map doubles k v m is (l.0)) ∙ h)
select-commit doubles (cons i is) u v w l n h = absurd l
