-- ===== src/Code/Bracket/Range.antt =====
-- Indices that are negative or beyond `int`.
use yast_core.Prelude.{ℕ, ◌≡◌, ◌<◌, refl, some, ◌==◌, ltb, if◌then◌else◌}
use yast_core.Prelude.Int.{ℤ, pos, negsuc, to_int-negsuc}
use yast_core.Values.Defs.{Value, Values, Doubles, null, void, integer, list, nil, cons, size}
use yast_core.Values.List.{set, value}
use yast_core.Code.Bracket.{commit}

-- What a list is after the assignment of a value to an index: a negative one changes nothing, one
-- behind the end fills up with nil.
abbrev pub IsAssigned : Values → ℤ → Value → Values → Type 0
IsAssigned vs (negsuc n) v ws = ws ≡ vs
IsAssigned vs (pos n) v ws =
    (j : ℕ)
    → value ws (pos j) ≡ (
        if n == j
        then v
        else if ltb j (size vs)
        then value vs (pos j)
        else if ltb j n
        then void
        else null)

-- A bracket assignment to a negative index of a list (not below -2^31) gives the list back, so the
-- value is lost without an error.
pub commit-negsuc :
    (doubles : Doubles) (vs : Values) (n : ℕ) (v : Value)
    → n < 2147483648
    → commit doubles (list vs) (cons (integer (negsuc n)) nil) v ≡ some (list vs)
unfolding commit set
commit-negsuc doubles vs n v h = rw (to_int-negsuc n h) refl
