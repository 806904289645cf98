-- ===== src/Values/Path/Steps.antt =====
-- The operations of YCPPathRep on the components of a path (libycp/src/YCPPath.cc). `none` is an
-- access outside of the vector, which C++ leaves undefined.
mod Tests
pub mod Laws
use yast_core.Prelude.{
  ℕ, zero, suc, Bool, true, false, ◌&&◌, Option, none, some, [], ◌∷◌, ◌++◌, Bytes, length, ltb,
  if◌then◌else◌,
}
use yast_core.Prelude.Texts.{same_text}
use yast_core.Prelude.Int.{ℤ, pos, negsuc}
use yast_core.Prelude.Fault.{◌>>=◌}
use yast_core.Values.Defs.{Components}

abbrev is_root : Components → Bool
is_root [] = true
is_root (c ∷ cs) = false

-- `append (const YCPPath &)`: the number of components is taken before the loop.
unfoldable pub append : Components → Components → Components
append p [] = p
append p (c ∷ q) = append (p ++ c ∷ []) q

-- `append (string)`.
abbrev pub append_text : Components → Bytes → Components
append_text p c = p ++ record { component = c; complex = true } ∷ []

-- The loop of isPrefixOf.
unfoldable pub same_components : Components → Components → Bool
unfolding same_text
same_components [] q = true
same_components (c ∷ p) [] = false
same_components (c ∷ p) (d ∷ q) = same_text c.component d.component && same_components p q

unfoldable pub is_prefix_of : Components → Components → Bool
unfolding same_components
is_prefix_of p q = if ltb (length q) (length p) then false else same_components p q

-- The components from an index on: none behind the end.
unfoldable pub drop_components : ℕ → Components → Components
drop_components zero p = p
drop_components (suc i) [] = []
drop_components (suc i) (c ∷ p) = drop_components i p

-- YCPPathRep::at.
unfoldable pub at : Components → ℤ → Option Components
unfolding drop_components
at p (negsuc i) = none
at p (pos i) = some (drop_components i p)

-- The loop of YCPPathRep::prefix.
unfoldable pub take_components : ℕ → Components → Option Components
take_components zero p = some []
take_components (suc i) [] = none
take_components (suc i) (c ∷ p) = take_components i p >>= λ r. some (c ∷ r)

unfoldable pub prefix : Components → ℤ → Option Components
unfolding take_components
prefix p (negsuc i) = some []
prefix p (pos i) = take_components i p
