-- ===== src/Values/List.antt =====
-- libycp/src/YCPList.cc: the operations of a list. An index is an `int`.
pub mod Laws
use yast_core.Prelude.{
  ℕ, zero, suc, ◌+◌, ◌-◌, Bool, true, false, ◌&&◌, ◌||◌, Option, none, some, ltb, if◌then◌else◌,
}
use yast_core.Prelude.Int.{ℤ, pos, negsuc}
use yast_core.Prelude.Fault.{◌>>=◌}
use yast_core.Values.Order.{YcpOrder, equal}
use yast_core.Values.Defs.{Value, Values, null, void, nil, cons, size, Doubles}
use yast_core.Values.Compare.{compare}

-- `push_back`, which `add` is too.
unfoldable pub push_back : Values → Value → Values
push_back nil value = cons value nil
push_back (cons v vs) value = cons v (push_back vs value)

-- `elements[i] = value`, within the bounds.
unfoldable pub assign : Values → ℕ → Value → Values
assign nil i value = nil
assign (cons v vs) zero value = cons value vs
assign (cons v vs) (suc i) value = cons v (assign vs i value)

-- `while (i >= size ()) elements.push_back (YCPVoid ())`, for `rounds` rounds.
unfoldable pub pad : ℕ → Values → Values
unfolding push_back
pad zero vs = vs
pad (suc rounds) vs = pad rounds (push_back vs void)

-- YCPListRep::set: a negative index changes nothing, one behind the end fills up with nil.
unfoldable pub set : Values → ℤ → Value → Values
unfolding pad assign
set vs (negsuc i) value = vs
set vs (pos i) value = assign (pad (i + 1 - size vs) vs) i value

-- YCPListRep::remove: the process is aborted (`none`) for an index that is out of range.
unfoldable pub erase_at : Values → ℕ → Option Values
erase_at nil i = none
erase_at (cons v vs) zero = some vs
erase_at (cons v vs) (suc i) = erase_at vs i >>= λ r. some (cons v r)

unfoldable pub remove : Values → ℤ → Option Values
unfolding erase_at
remove vs (negsuc i) = none
remove vs (pos i) = erase_at vs i

-- YCPListRep::value: null out of range.
unfoldable pub at : Values → ℕ → Value
at nil i = null
at (cons v vs) zero = v
at (cons v vs) (suc i) = at vs i

unfoldable pub value : Values → ℤ → Value
unfolding at
value vs (negsuc i) = null
value vs (pos i) = at vs i

abbrev pub in_range : Values → ℤ → Bool
in_range vs (negsuc i) = false
in_range vs (pos i) = ltb i (size vs)

-- YCPListRep::swap: an index out of range changes nothing.
unfoldable pub swap : Values → ℤ → ℤ → Values
unfolding at assign
swap vs (pos x) (pos y) =
    if ltb x (size vs) && ltb y (size vs) then assign (assign vs x (at vs y)) y (at vs x) else vs
swap vs _ _ = vs

-- The copying loop of `shallowCopy` and `functionalAdd`.
unfoldable pub append_all : Values → Values → Values
unfolding push_back
append_all new_list nil = new_list
append_all new_list (cons v vs) = append_all (push_back new_list v) vs

unfoldable pub shallow_copy : Values → Values
unfolding append_all
shallow_copy vs = append_all nil vs

unfoldable pub functional_add : Values → Value → Bool → Values
unfolding append_all push_back
functional_add vs val prepend =
    let copied = append_all (if prepend then push_back nil val else nil) vs in
    if prepend then copied else push_back copied val

abbrev pub is_equal : YcpOrder → Bool
is_equal equal = true
is_equal _ = false

module _ (doubles : Doubles) where
  -- YCPListRep::contains: `find_if` with ycp_equal_to.
  unfoldable pub contains : Values → Value → Bool
  contains nil val = false
  contains (cons v vs) val = is_equal (compare doubles v val) || contains vs val
