-- ===== src/Values/Defs.antt =====
-- The values of libycp/src/include/ycp/YCPValue.h: YCPValue is a handle that may be null (`null`),
-- and each class of values is a constructor. A double is the 64-bit pattern that stands for it.
-- The results of break and return are values too. Code, entries, references and external objects
-- are left out.
use yast_core.Prelude.{ℕ, suc, Bool, true, false, List, Bytes, ◌==◌}
use yast_core.Prelude.Int.{ℤ}

-- YCPPathRep::Component.
pub record Component : Type 0 where
  pub component : Bytes
  pub complex : Bool

abbrev pub Components : Type 0
Components = List Component

mutual
  pub data Value : Type 0 where
    null : Value
    void : Value
    boolean : Bool → Value
    integer : ℤ → Value
    float : ℕ → Value
    string : Bytes → Value
    byteblock : Bytes → Value
    path : Components → Value
    symbol : Bytes → Value
    list : Values → Value
    term : Bytes → Values → Value
    map : Pairs → Value
    break_value : Value
    return_value : Value

  -- the elements of a list
  pub data Values : Type 0 where
    nil : Values
    cons : Value → Values → Values

  -- the entries of a map, in the order of the STL map that holds them
  pub data Pairs : Type 0 where
    end : Pairs
    entry : Value → Value → Pairs → Pairs

-- YCPValueType. A null handle has none; no caller asks it.
abbrev pub valuetype : Value → ℕ
valuetype null = 18
valuetype void = 0
valuetype (boolean b) = 1
valuetype (integer i) = 2
valuetype (float f) = 3
valuetype (string s) = 4
valuetype (byteblock b) = 5
valuetype (path p) = 6
valuetype (symbol s) = 7
valuetype (list vs) = 8
valuetype (term s vs) = 9
valuetype (map m) = 10
valuetype return_value = 12
valuetype break_value = 13

abbrev pub is_null : Value → Bool
is_null null = true
is_null _ = false

abbrev pub is_string : Value → Bool
is_string v = valuetype v == 4

abbrev pub is_integer : Value → Bool
is_integer v = valuetype v == 2

abbrev pub is_symbol : Value → Bool
is_symbol v = valuetype v == 7

-- YCPListRep::size and YCPMapRep::size.
abbrev pub size : Values → ℕ
size nil = 0
size (cons v vs) = suc (size vs)

abbrev pub map_size : Pairs → ℕ
map_size end = 0
map_size (entry k v m) = suc (map_size m)

-- The C type double: its comparisons are the machine's.
pub record Doubles : Type 0 where
  pub eq : ℕ → ℕ → Bool
  pub lt : ℕ → ℕ → Bool
