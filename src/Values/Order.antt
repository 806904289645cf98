-- ===== src/Values/Order.antt =====
-- YCPOrder, and the comparisons of numbers and byte strings that the value classes use.
use yast_core.Prelude.{ℕ, [], ◌∷◌, Bytes, if◌then◌else◌}
use yast_core.Prelude.Int.{ℤ, pos, eqb_ℤ, ltb_ℤ}

-- YO_LESS, YO_EQUAL, YO_GREATER; `fault` is a call through a null value, which C++ leaves undefined.
pub data YcpOrder : Type 0 where
  less equal greater fault : YcpOrder

-- `if (order == YO_LESS || order == YO_GREATER) return order;`, then the rest.
abbrev pub and_then : YcpOrder → YcpOrder → YcpOrder
and_then equal rest = rest
and_then o rest = o

abbrev pub flip : YcpOrder → YcpOrder
flip less = greater
flip equal = equal
flip greater = less
flip fault = fault

-- `a == b ? YO_EQUAL : a < b ? YO_LESS : YO_GREATER`
abbrev pub compare_int : ℤ → ℤ → YcpOrder
compare_int a b = if eqb_ℤ a b then equal else if ltb_ℤ a b then less else greater

abbrev pub compare_size : ℕ → ℕ → YcpOrder
compare_size a b = compare_int (pos a) (pos b)

-- std::string::compare: by unsigned bytes, and a prefix is less.
unfoldable pub compare_bytes : Bytes → Bytes → YcpOrder
compare_bytes [] [] = equal
compare_bytes [] (b ∷ bs) = less
compare_bytes (a ∷ as') [] = greater
compare_bytes (a ∷ as') (b ∷ bs) = and_then (compare_size a b) (compare_bytes as' bs)
