-- ===== src/Values/Path/Steps/Tests.antt =====
-- Examples for the operations of paths.
use yast_core.Prelude.{◌≡◌, refl, true, false, [], ◌∷◌}
use yast_core.Values.Defs.{Components}
use yast_core.Prelude.Texts.{same_text}
use yast_core.Values.Path.Steps.{same_components, is_prefix_of}

abbrev short : Components
short = record { component = 97 ∷ []; complex = false } ∷ []

abbrev long : Components
long =
    record { component = 97 ∷ []; complex = true }
    ∷ record { component = 98 ∷ []; complex = false }
    ∷ []

is_prefix_of_test : is_prefix_of short long ≡ true
unfolding is_prefix_of same_components same_text
is_prefix_of_test = refl
