-- ===== src/Builtins/Paths.antt =====
-- The builtins on paths of libycp/src/YCPBuiltinPath.cc.
pub mod Text
use yast_core.Prelude.{[], ◌∷◌, Bytes, length, ◌==◌, if◌then◌else◌}
use yast_core.Prelude.Int.{pos}
use yast_core.Bytecode.Text.{c_str}
use yast_core.Values.Defs.{Value, null, integer, string, path}
use yast_core.Values.Path.Steps.{append, append_text}
use yast_core.Values.Path.{dot_char, parse_path}

unfoldable pub p_size : Value → Value
p_size (path p) = integer (pos (length p))
p_size v = null

unfoldable pub p_add : Value → Value → Value
p_add (path p) (string s) = path (append_text (append [] p) s)
p_add v w = null

unfoldable pub p_plus : Value → Value → Value
p_plus (path p) (path q) = path (append (append [] p) q)
p_plus v w = null

-- The text that topath parses: a missing dot is put in front.
unfoldable pub with_dot : Bytes → Bytes
with_dot [] = dot_char ∷ []
with_dot (c ∷ s) = if c == dot_char then c ∷ s else dot_char ∷ c ∷ s

unfoldable pub p_topath : Value → Value
unfolding with_dot parse_path c_str
p_topath (path p) = path p
p_topath (string s) = path (parse_path (c_str (with_dot s)))
p_topath v = null
