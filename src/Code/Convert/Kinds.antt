-- ===== src/Code/Convert/Kinds.antt =====
-- The types of values without parts.
use yast_core.Prelude.{◌≡◌, refl, true, false, some}
use yast_core.Prelude.Int.{pos}
use yast_core.Types.Kind.{
  Kind, any_t, boolean_t, byteblock_t, float_t, integer_t, path_t, string_t, symbol_t, term_t,
  void_t,
}
use yast_core.Types.Defs.{Quals, base, is_list, is_map}
use yast_core.Values.Defs.{
  Value, null, void, boolean, integer, float, string, byteblock, path, symbol, term, return_value,
  is_null,
}
use yast_core.Values.Typing.{match_value}
use yast_core.Code.Convert.{fits}

-- The kinds of values without parts, any and void.
abbrev pub IsValueKind : Kind → Type 0
IsValueKind any_t = Unit
IsValueKind boolean_t = Unit
IsValueKind byteblock_t = Unit
IsValueKind float_t = Unit
IsValueKind integer_t = Unit
IsValueKind path_t = Unit
IsValueKind string_t = Unit
IsValueKind symbol_t = Unit
IsValueKind term_t = Unit
IsValueKind void_t = Unit
IsValueKind _ = ⊥

pub base_fits :
    (q : Quals) (k : Kind) (v : Value)
    → IsValueKind k
    → is_null v ≡ false
    → fits v (base k q) ≡ true
    → match_value (base k q) v ≡ some (pos 0)
unfolding match_value
base_fits q any_t null h n e = cc
base_fits q any_t v h n e = refl
base_fits q void_t void h n e = refl
base_fits q void_t return_value h n e = refl
base_fits q void_t v h n e = cc
base_fits q boolean_t void h n e = refl
base_fits q boolean_t return_value h n e = refl
base_fits q boolean_t (boolean b) h n e = refl
base_fits q boolean_t v h n e = cc
base_fits q byteblock_t void h n e = refl
base_fits q byteblock_t return_value h n e = refl
base_fits q byteblock_t (byteblock b) h n e = refl
base_fits q byteblock_t v h n e = cc
base_fits q float_t void h n e = refl
base_fits q float_t return_value h n e = refl
base_fits q float_t (float f) h n e = refl
base_fits q float_t v h n e = cc
base_fits q integer_t void h n e = refl
base_fits q integer_t return_value h n e = refl
base_fits q integer_t (integer i) h n e = refl
base_fits q integer_t v h n e = cc
base_fits q path_t void h n e = refl
base_fits q path_t return_value h n e = refl
base_fits q path_t (path p) h n e = refl
base_fits q path_t v h n e = cc
base_fits q string_t void h n e = refl
base_fits q string_t return_value h n e = refl
base_fits q string_t (string s) h n e = refl
base_fits q string_t v h n e = cc
base_fits q symbol_t void h n e = refl
base_fits q symbol_t return_value h n e = refl
base_fits q symbol_t (symbol s) h n e = refl
base_fits q symbol_t v h n e = cc
base_fits q term_t void h n e = refl
base_fits q term_t return_value h n e = refl
base_fits q term_t (term s vs) h n e = refl
base_fits q term_t v h n e = cc
base_fits q k v h n e = absurd h

-- No value type is a list or a map.
pub no_list :
    (q : Quals) (k : Kind)
    → IsValueKind k
    → (is_list (base k q) ≡ false) × (is_map (base k q) ≡ false)
no_list q any_t h = (refl, refl)
no_list q boolean_t h = (refl, refl)
no_list q byteblock_t h = (refl, refl)
no_list q float_t h = (refl, refl)
no_list q integer_t h = (refl, refl)
no_list q path_t h = (refl, refl)
no_list q string_t h = (refl, refl)
no_list q symbol_t h = (refl, refl)
no_list q term_t h = (refl, refl)
no_list q void_t h = (refl, refl)
no_list q k h = absurd h
