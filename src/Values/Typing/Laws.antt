-- ===== src/Values/Typing/Laws.antt =====
-- What Type::matchvalue promises of the parts of lists and maps.
use yast_core.Prelude.{
  ap, ℕ, zero, suc, ◌<◌, ◌≡◌, ◌↔◌, refl, Bool, true, false, ◌||◌, Option, none, some, if◌then◌else◌,
  arith,
}
use yast_core.Prelude.Int.{ℤ, pos, negsuc, is_negative}
use yast_core.Prelude.Fault.{◌>>=◌}
use yast_core.Types.Defs.{
  Quals, YcpType, list as list_type, map as map_type, is_any, is_unspec, is_list, is_map,
  element_of, map_parts,
}
use yast_core.Values.Defs.{
  return_value, Value, Values, Pairs, null, void, list, map, nil, cons, end, entry, size, Doubles,
}
use yast_core.Values.List.{at}
use yast_core.Values.Map.{find}
use yast_core.Values.Typing.{verdict, also, match_value, match_elements, match_entries}

-- 0, -1 or a fault.
IsVerdict : Option ℤ → Type 0
IsVerdict none = Unit
IsVerdict (some r) = if is_negative r then Unit else (r ≡ pos 0)

verdict-IsVerdict : (b : Bool) → IsVerdict (verdict b)
unfolding IsVerdict
verdict-IsVerdict true = refl
verdict-IsVerdict false = tt

if-IsVerdict :
    (b : Bool) (m n : Option ℤ) → IsVerdict m → IsVerdict n → IsVerdict (if b then m else n)
if-IsVerdict true m n h k = h
if-IsVerdict false m n h k = k

also-IsVerdict : (m n : Option ℤ) → IsVerdict n → IsVerdict (also m n)
unfolding IsVerdict
also-IsVerdict none n h = tt
also-IsVerdict (some (pos r)) n h = h
also-IsVerdict (some (negsuc r)) n h = tt

bind-IsVerdict :
    {A : Type 0} (o : Option A) (f : A → Option ℤ)
    → ((a : A) → IsVerdict (f a))
    → IsVerdict (o >>= f)
bind-IsVerdict none f h = unfold IsVerdict in tt
bind-IsVerdict (some a) f h = h a

match_elements-IsVerdict : (u : YcpType) (vs : Values) → IsVerdict (match_elements u vs)
unfolding match_elements IsVerdict
match_elements-IsVerdict u nil = refl
match_elements-IsVerdict u (cons v vs) =
    also-IsVerdict (match_value u v) _ (match_elements-IsVerdict u vs)

match_entries-IsVerdict : (k u : YcpType) (m : Pairs) → IsVerdict (match_entries k u m)
unfolding match_elements IsVerdict
match_entries-IsVerdict k u end = refl
match_entries-IsVerdict k u (entry key v m) =
    also-IsVerdict (match_value k key) _
      (also-IsVerdict (match_value u v) _ (match_entries-IsVerdict k u m))

match_value-IsVerdict : (t : YcpType) (v : Value) → IsVerdict (match_value t v)
unfolding match_value IsVerdict
match_value-IsVerdict t null = tt
match_value-IsVerdict t void = refl
match_value-IsVerdict t return_value = refl
match_value-IsVerdict t (list vs) = if-IsVerdict (is_any t) _ _ refl (
    if-IsVerdict (is_list t) _ _
      (bind-IsVerdict (element_of t) _
        λ u. if-IsVerdict (is_any u || is_unspec u) _ _ refl (match_elements-IsVerdict u vs))
      tt)
match_value-IsVerdict t (map m) = if-IsVerdict (is_any t) _ _ refl (
    if-IsVerdict (is_map t) _ _
      (bind-IsVerdict (map_parts t) _ λ p.
        if-IsVerdict (is_any p.1 || is_unspec p.1) _ _ refl (match_entries-IsVerdict p.0 p.1 m))
      tt)
match_value-IsVerdict t _ = verdict-IsVerdict _

-- Two parts match exactly if each does.
also_iff :
    (m n : Option ℤ)
    → IsVerdict m
    → (also m n ≡ some (pos 0)) ↔ ((m ≡ some (pos 0)) × (n ≡ some (pos 0)))
unfolding IsVerdict
also_iff none n h = ((λ e. absurd cc), (λ p. let e = p.0 in absurd cc))
also_iff (some (pos r)) n h = ((λ e. (ap some h, e)), (λ p. p.1))
also_iff (some (negsuc r)) n h = ((λ e. absurd cc), (λ p. let e = p.0 in absurd cc))

match_elements-at :
    (u : YcpType) (vs : Values) (i : ℕ)
    → match_elements u vs ≡ some (pos 0)
    → i < size vs
    → match_value u (at vs i) ≡ some (pos 0)
unfolding match_elements at
match_elements-at u nil i e h = absurd (omega arith)
match_elements-at u (cons v vs) zero e h =
    ((also_iff (match_value u v) (match_elements u vs) (match_value-IsVerdict u v)).0 e).0
match_elements-at u (cons v vs) (suc i) e h =
    match_elements-at u vs i
      ((also_iff (match_value u v) (match_elements u vs) (match_value-IsVerdict u v)).0 e).1
      (omega arith)

at-match_elements :
    (u : YcpType) (vs : Values)
    → ((i : ℕ) → i < size vs → match_value u (at vs i) ≡ some (pos 0))
    → match_elements u vs ≡ some (pos 0)
unfolding match_elements at
at-match_elements u nil h = refl
at-match_elements u (cons v vs) h =
    (also_iff (match_value u v) (match_elements u vs) (match_value-IsVerdict u v)).1
      (h 0 (omega arith), at-match_elements u vs (λ i k. h (suc i) (omega arith)))

-- A list matches a list type, whose element type is neither any nor unspecified, exactly if the
-- element at each of its indices matches the element type.
pub match_value-list :
    (q : Quals) (u : YcpType) (vs : Values)
    → is_any u ≡ false
    → is_unspec u ≡ false
    → (match_value (list_type q u) (list vs) ≡ some (pos 0))
      ↔ ((i : ℕ) → i < size vs → match_value u (at vs i) ≡ some (pos 0))
unfolding match_value
match_value-list q u vs a b =
    rw (a, b) ((λ e i h. match_elements-at u vs i e h), at-match_elements u vs)

found_matches :
    (u : YcpType) (b c : Bool) (o : Option Value) (w v : Value)
    → (o ≡ some v → match_value u v ≡ some (pos 0))
    → match_value u w ≡ some (pos 0)
    → (if b then o else if c then some w else none) ≡ some v
    → match_value u v ≡ some (pos 0)
found_matches u true c o w v h k e = h e
found_matches u false true o w v h k e = cc
found_matches u false false o w v h k e = absurd cc

match_entries-find :
    (doubles : Doubles) (k u : YcpType) (m : Pairs) (j v : Value)
    → match_entries k u m ≡ some (pos 0)
    → find doubles j m ≡ some v
    → match_value u v ≡ some (pos 0)
unfolding match_elements find
match_entries-find doubles k u end j v e h = absurd cc
match_entries-find doubles k u (entry key w m) j v e h =
    let rest = also (match_value u w) (match_entries k u m) in
    let tail = ((also_iff (match_value k key) rest (match_value-IsVerdict k key)).0 e).1 in
    let parts =
      (also_iff (match_value u w) (match_entries k u m) (match_value-IsVerdict u w)).0 tail in
    found_matches u _ _ (find doubles j m) w v (λ f. match_entries-find doubles k u m j v parts.1 f)
      parts.0 h

-- What a lookup finds in a map that matches a map type, whose value type is neither any nor
-- unspecified, matches the value type.
pub match_value-find :
    (doubles : Doubles) (q : Quals) (k u : YcpType) (m : Pairs) (j v : Value)
    → is_any u ≡ false
    → is_unspec u ≡ false
    → match_value (map_type q k u) (map m) ≡ some (pos 0)
    → find doubles j m ≡ some v
    → match_value u v ≡ some (pos 0)
unfolding match_value
match_value-find doubles q k u m j v a b e h =
    match_entries-find doubles k u m j v (rw (a, b) at e) h
