-- ===== src/Bytecode/Tests.antt =====
-- Examples for the primitives of the bytecode format.
use yast_core.Prelude.{◌≡◌, refl, Bytes, [], ◌∷◌}
use yast_core.Bytecode.Int32.{write_int32}
use yast_core.Bytecode.Text.{c_str}

-- The bytes of "ab", a NUL, and "c".
abbrev with_nul : Bytes
with_nul = 97 ∷ 98 ∷ 0 ∷ 99 ∷ []

abbrev behind : Bytes
behind = 7 ∷ []

write_int32_test : write_int32 258 ≡ 4 ∷ 2 ∷ 1 ∷ 0 ∷ 0 ∷ []
unfolding write_int32
write_int32_test = refl

c_str_test : c_str with_nul ≡ 97 ∷ 98 ∷ []
unfolding c_str
c_str_test = refl
