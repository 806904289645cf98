-- ===== src/Builtins/Maps.antt =====
-- libycp/src/YCPBuiltinMap.cc. An argument of the declared type or a null handle comes in, so other
-- values give what a null handle gives. `none` is a fault.
pub mod Loops
pub mod Union
use yast_core.Prelude.{true, false, Option, none, some, if◌then◌else◌}
use yast_core.Prelude.Int.{pos}
use yast_core.Prelude.Fault.{◌>>=◌}
use yast_core.Values.Defs.{Value, Doubles, null, boolean, integer, map, end, map_size}
use yast_core.Values.Map.{copy_onto, has_key, functional_add, remove}

unfoldable pub m_size : Value → Value
m_size (map m) = integer (pos (map_size m))
m_size v = integer (pos 0)

unfoldable pub m_isempty : Value → Option Value
m_isempty (map end) = some (boolean true)
m_isempty (map m) = some (boolean false)
m_isempty v = none

unfoldable pub m_tomap : Value → Value
m_tomap (map m) = map m
m_tomap v = null

module _ (doubles : Doubles) where
  unfoldable pub m_haskey : Value → Value → Value
  m_haskey (map m) null = null
  m_haskey (map m) key = boolean (has_key doubles key m)
  m_haskey v key = null

  -- Both rounds of the loop add each entry to the new map.
  unfoldable pub m_unionmap : Value → Value → Option Value
  m_unionmap (map m) (map n) = do
    u ← copy_onto doubles m end
    w ← copy_onto doubles n u
    some (map w)
  m_unionmap v w = some null

  unfoldable pub m_addmap : Value → Value → Value → Option Value
  m_addmap (map m) null value = some null
  m_addmap (map m) key value = functional_add doubles key value m
  m_addmap v key value = some null

  unfoldable pub m_remove : Value → Value → Option Value
  m_remove (map m) null = some null
  m_remove (map m) key =
      let removed = remove doubles key m >>= λ n. some (map n) in
      if has_key doubles key m then removed else some (map m)
  m_remove v key = some null
