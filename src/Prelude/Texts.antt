-- ===== src/Prelude/Texts.antt =====
-- The bytes of the texts that the source spells out, and equality of texts.
use Prim.Native.Char.{code}
use Prim.Native.String.{String}
use Prim.Native.Nat.{ℕ}
use mathlib.Core.Path.{◌≡◌, refl}
use mathlib.Core.Bool.{Bool, true, false, ◌&&◌}
use mathlib.Core.List.{List, [], ◌∷◌}
use native.Mathlib.Omega.{arith}
use yast_core.Prelude.Tests.{◌==◌, ==_refl}
use yast_core.Prelude.Lists.{Bytes}

abbrev pub codes : String → List ℕ
codes String.[] = []
codes (String.◌∷◌ c s) = code c ∷ codes s

unfoldable pub same_text : Bytes → Bytes → Bool
same_text [] [] = true
same_text (a ∷ s) (b ∷ t) = a == b && same_text s t
same_text _ _ = false

pub same_text_refl : (s : Bytes) → same_text s s ≡ true
unfolding same_text
same_text_refl [] = refl
same_text_refl (a ∷ s) = rw (==_refl a, same_text_refl s)

pub same_text-path : (s t : Bytes) → same_text s t ≡ true → s ≡ t
unfolding same_text
same_text-path [] [] h = refl
same_text-path [] (b ∷ t) h = absurd cc
same_text-path (a ∷ s) [] h = absurd cc
same_text-path (a ∷ s) (b ∷ t) h = ground (arith, same_text-path s t)
