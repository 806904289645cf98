-- ===== src/Values/List/Laws.antt =====
-- The lists of libycp/src/YCPList.cc as sequences: what the elements are after each operation.
use yast_core.Prelude.{
  lt→ltb, ℕ, zero, suc, ◌+◌, ◌-◌, ◌≤◌, ◌<◌, ◌≡◌, ◌∙◌, refl, sym, true, false, none, some, ◌==◌, ltb,
  if◌then◌else◌, arith,
}
use yast_core.Prelude.Int.{pos}
use yast_core.Prelude.Fault.{◌>>=◌}
use yast_core.Values.Defs.{Value, Values, null, void, nil, cons, size}
use yast_core.Values.List.{
  set, swap, pad, assign, push_back, append_all, functional_add, at, value, erase_at,
}

join : Values → Values → Values
join nil ws = ws
join (cons v vs) ws = cons v (join vs ws)

join-nil : (vs : Values) → join vs nil ≡ vs
unfolding join
join-nil nil = refl
join-nil (cons v vs) = rw (join-nil vs)

join-push_back : (vs ws : Values) (v : Value) → join (push_back vs v) ws ≡ join vs (cons v ws)
unfolding join push_back
join-push_back nil ws v = refl
join-push_back (cons u vs) ws v = rw (join-push_back vs ws v)

append_all-join : (vs ws : Values) → append_all vs ws ≡ join vs ws
unfolding append_all
append_all-join vs nil = sym (join-nil vs)
append_all-join vs (cons w ws) = append_all-join (push_back vs w) ws ∙ join-push_back vs ws w

pub append_all-nil : (vs : Values) → append_all nil vs ≡ vs
append_all-nil vs = append_all-join nil vs ∙ unfold join in refl

push_back-join : (vs : Values) (v : Value) → push_back vs v ≡ join vs (cons v nil)
unfolding push_back join
push_back-join nil v = refl
push_back-join (cons u vs) v = rw (push_back-join vs v)

-- functionalAdd gives the list with the value behind its end, or before its start.
pub functional_add_lem :
    (vs : Values) (v : Value)
    → (functional_add vs v false ≡ push_back vs v) × (functional_add vs v true ≡ cons v vs)
unfolding functional_add push_back
functional_add_lem vs v =
    (rw (append_all-nil vs), append_all-join (cons v nil) vs ∙ unfold join in refl)

pub size-push_back : (vs : Values) (v : Value) → size (push_back vs v) ≡ suc (size vs)
unfolding push_back
size-push_back nil v = refl
size-push_back (cons w vs) v = rw (size-push_back vs v)

assign-push_back :
    (vs : Values) (u v : Value) → assign (push_back vs u) (size vs) v ≡ push_back vs v
unfolding assign push_back
assign-push_back nil u v = refl
assign-push_back (cons w vs) u v = rw (assign-push_back vs u v)

-- Setting the element behind the last one appends it.
pub set-size : (vs : Values) (v : Value) → set vs (pos (size vs)) v ≡ push_back vs v
unfolding set pad
set-size vs v =
    let one : size vs + 1 - size vs ≡ 1 = omega arith in rw one (assign-push_back vs void v)

at-push_back :
    (vs : Values) (v : Value) (j : ℕ)
    → at (push_back vs v) j ≡ (if j == size vs then v else at vs j)
unfolding at push_back
at-push_back nil v zero = refl
at-push_back nil v (suc j) = ground arith
at-push_back (cons w vs) v zero = ground arith
at-push_back (cons w vs) v (suc j) = ground (arith, at-push_back vs v j)

size-pad : (n : ℕ) (vs : Values) → size (pad n vs) ≡ n + size vs
unfolding pad
size-pad zero vs = omega arith
size-pad (suc n) vs = omega (arith, size-pad n (push_back vs void), size-push_back vs void)

at-out_of_range : (vs : Values) (j : ℕ) → size vs ≤ j → at vs j ≡ null
unfolding at
at-out_of_range nil j h = refl
at-out_of_range (cons v vs) zero h = absurd (omega arith)
at-out_of_range (cons v vs) (suc j) h = at-out_of_range vs j (omega arith)

at-pad :
    (n : ℕ) (vs : Values) (j : ℕ)
    → at (pad n vs) j
      ≡ (if ltb j (size vs) then at vs j else if ltb j (n + size vs) then void else null)
unfolding pad
at-pad zero vs j = ground (arith, at-out_of_range vs j)
at-pad (suc n) vs j =
    ground (arith, at-pad n (push_back vs void) j, at-push_back vs void j, size-push_back vs void)

at-assign :
    (vs : Values) (i : ℕ) (v : Value) (j : ℕ)
    → i < size vs
    → at (assign vs i v) j ≡ (if i == j then v else at vs j)
unfolding at assign
at-assign nil i v j h = absurd (omega arith)
at-assign (cons w vs) zero v zero h = refl
at-assign (cons w vs) zero v (suc j) h = ground arith
at-assign (cons w vs) (suc i) v zero h = ground arith
at-assign (cons w vs) (suc i) v (suc j) h = ground (arith, at-assign vs i v j)

pub value-set :
    (vs : Values) (i : ℕ) (v : Value) (j : ℕ)
    → value (set vs (pos i) v) (pos j) ≡ (
        if i == j
        then v
        else if ltb j (size vs)
        then value vs (pos j)
        else if ltb j i
        then void
        else null)
unfolding value set
value-set vs i v j = ground (
  arith,
  at-assign (pad (i + 1 - size vs) vs) i v j,
  size-pad (i + 1 - size vs) vs,
  at-pad (i + 1 - size vs) vs j,
)

-- `remove (i)` succeeds exactly within the bounds, and closes the gap: the elements before `i` stay
-- where they are, those behind it move down by one.
pub at-erase_at :
    (vs : Values) (i j : ℕ)
    → (erase_at vs i >>= λ r. some (at r j))
      ≡ (if ltb i (size vs) then some (at vs (if ltb j i then j else suc j)) else none)
unfolding at erase_at
at-erase_at nil i j = ground arith
at-erase_at (cons v vs) zero zero = ground arith
at-erase_at (cons v vs) zero (suc j) = ground arith
at-erase_at (cons v vs) (suc i) zero = ground (arith, at-erase_at vs i zero)
at-erase_at (cons v vs) (suc i) (suc j) = ground (arith, at-erase_at vs i j)

size-assign : (vs : Values) (i : ℕ) (v : Value) → size (assign vs i v) ≡ size vs
unfolding assign
size-assign nil i v = refl
size-assign (cons w vs) zero v = refl
size-assign (cons w vs) (suc i) v = omega (arith, size-assign vs i v)

-- After `swap (x, y)` with both indices within the bounds, each of the two holds what the other
-- held, and the rest stay.
pub value-swap :
    (vs : Values) (x y j : ℕ)
    → x < size vs
    → y < size vs
    → value (swap vs (pos x) (pos y)) (pos j)
      ≡ (if y == j then value vs (pos x) else if x == j then value vs (pos y) else value vs (pos j))
unfolding value swap
value-swap vs x y j hx hy =
    let inner = assign vs x (at vs y) in
    rw
      (
        lt→ltb x (size vs) hx,
        lt→ltb y (size vs) hy,
        at-assign inner y (at vs x) j (omega (arith, hy, size-assign vs x (at vs y))),
        at-assign vs x (at vs y) j hx,
      )
      refl
