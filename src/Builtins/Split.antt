-- ===== src/Builtins/Split.antt =====
-- l_splitstring of libycp/src/YCPBuiltinList.cc and s_mergestring of libycp/src/YCPBuiltinString.cc.
pub mod RoundTrip
use yast_core.Prelude.{
  ℕ, Bool, true, false, ◌||◌, Option, none, some, [], ◌∷◌, ◌++◌, Bytes, ◌==◌, if◌then◌else◌,
}
use yast_core.Prelude.Fault.{◌>>=◌}
use yast_core.Values.Defs.{Value, Values, null, string, list, nil, cons}

unfoldable pub member : ℕ → Bytes → Bool
member c [] = false
member c (d ∷ ds) = (c == d) || member c ds

-- The loop: `find_first_of` goes on from `spos`, and `piece` is what it has passed. Behind a
-- delimiter that is the last character an empty piece is added.
unfoldable pub pieces : Bytes → Bytes → Bytes → Values
unfolding member
pieces sc piece [] = cons (string piece) nil
pieces sc piece (c ∷ cs) =
    let behind = pieces sc [] cs in
    let further = pieces sc (piece ++ c ∷ []) cs in
    if member c sc then cons (string piece) behind else further

unfoldable pub l_splitstring : Value → Value → Value
unfolding pieces
l_splitstring (string []) (string sc) = list nil
l_splitstring (string ss) (string []) = list nil
l_splitstring (string ss) (string sc) = list (pieces sc [] ss)
l_splitstring s c = null

-- The loop, with whether `i` is 0. An element that is no string is skipped; one that is null is a
-- fault.
unfoldable pub merge : Bytes → Bool → Bytes → Values → Option Bytes
merge c first ret nil = some ret
merge c first ret (cons (string v) vs) = merge c false ((if first then ret else ret ++ c) ++ v) vs
merge c first ret (cons null vs) = none
merge c first ret (cons v vs) = merge c false ret vs

unfoldable pub s_mergestring : Value → Value → Option Value
unfolding merge
s_mergestring (list vs) (string c) = merge c true [] vs >>= λ ret. some (string ret)
s_mergestring l s = some null
