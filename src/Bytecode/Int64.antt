-- ===== src/Bytecode/Int64.antt =====
-- YCPIntegerRep::toStream and its reader (libycp/src/YCPInteger.cc): a `long long` as a count byte
-- and eight bytes of two's complement, the least significant first.
use yast_core.Prelude.{
  ℕ, zero, suc, ◌+◌, ◌-◌, ◌*◌, ◌/◌, ◌%◌, ◌^◌, ◌<◌, ◌≡◌, [], ◌∷◌, ◌++◌, Bytes, ltb, leb,
  if◌then◌else◌, arith,
}
use yast_core.Prelude.Int.{ℤ, pos, negsuc}
use native.Mathlib.Nat.{pow-suc}
use mathlib.Core.Path.{ap}
use yast_core.Bytecode.Stream.{Stream, get, live}

-- `ll & 0xff` and `ll >> 8`.
unfoldable pub low_byte : ℤ → ℕ
low_byte (pos n) = n % 256
low_byte (negsuc n) = 255 - n % 256

unfoldable pub shift_byte : ℤ → ℤ
shift_byte (pos n) = pos (n / 256)
shift_byte (negsuc n) = negsuc (n / 256)

-- `c` rounds of the writing loop.
unfoldable pub write_rounds : ℕ → ℤ → Bytes
unfolding low_byte shift_byte
write_rounds zero ll = []
write_rounds (suc c) ll = low_byte ll ∷ write_rounds c (shift_byte ll)

unfoldable pub write_int64 : ℤ → Bytes
write_int64 v = 8 ∷ write_rounds 8 v

-- `while (c-- > 0)`: round `c` puts a byte at place `8 - c - 1`. The bytes do not overlap, so `|`
-- is a sum. (A count above 8 shifts by a negative amount, which C++ leaves undefined.)
unfoldable pub read_rounds : ℕ → ℕ → Stream → ℕ × Stream
read_rounds zero ll s = (ll, s)
read_rounds (suc c) ll s =
    let (v, s') = get s in
    let more = read_rounds c (ll + v * 2 ^ (8 * (8 - c - 1))) s' in
    if s'.good then more else (ll, s')

-- A bit pattern of 64 bits as the `long long` that it stands for.
unfoldable pub signed64 : ℕ → ℤ
signed64 ll = if ltb ll 9223372036854775808 then pos ll else negsuc (18446744073709551615 - ll)

-- The count is a signed `char`: from 128 on it is negative, and nothing is read.
unfoldable pub read_int64 : Stream → ℤ × Stream
read_int64 s =
    let (c, s') = get s in
    let (ll, s'') = read_rounds (if leb 128 c then 0 else c) 0 s' in
    if s'.good then (signed64 ll, s'') else (pos 0, s')

-- The range of `long long`.
abbrev pub IsInt64 : ℤ → Type 0
IsInt64 (pos n) = n < 9223372036854775808
IsInt64 (negsuc n) = n < 9223372036854775808

-- The two's complement pattern.
pattern_of : ℤ → ℕ
pattern_of (pos n) = n
pattern_of (negsuc n) = 18446744073709551615 - n

-- The value of bytes, the least significant first.
bytes_value : Bytes → ℕ
bytes_value [] = 0
bytes_value (b ∷ bs) = b + 256 * bytes_value bs

write_rounds-negsuc :
    (c n : ℕ)
    → bytes_value (write_rounds c (negsuc n)) + bytes_value (write_rounds c (pos n)) + 1 ≡ 256 ^ c
unfolding bytes_value write_rounds
write_rounds-negsuc zero n = omega arith
write_rounds-negsuc (suc c) n = omega (arith, pow-suc 256 c, write_rounds-negsuc c (n / 256))

write_rounds-pos : (n : ℕ) → n < 18446744073709551616 → bytes_value (write_rounds 8 (pos n)) ≡ n
unfolding bytes_value write_rounds
write_rounds-pos n h = omega arith

write_rounds-value : (v : ℤ) → IsInt64 v → bytes_value (write_rounds 8 v) ≡ pattern_of v
unfolding pattern_of
write_rounds-value (pos n) h = write_rounds-pos n (omega arith)
write_rounds-value (negsuc n) h =
    omega (arith, write_rounds-negsuc 8 n, write_rounds-pos n (omega arith))

-- The reading loop puts the bytes together.
read_rounds-write_rounds :
    (v : ℤ) (rest : Bytes) (z : ℕ)
    → read_rounds 8 0 (live (write_rounds 8 v ++ rest) z)
      ≡ (bytes_value (write_rounds 8 v), live rest z)
unfolding read_rounds write_rounds get bytes_value
read_rounds-write_rounds v rest z = ap (λ (n : ℕ). (n, live rest z)) (omega arith)

signed64-pattern_of : (v : ℤ) → IsInt64 v → signed64 (pattern_of v) ≡ v
unfolding signed64 pattern_of
signed64-pattern_of (pos n) h = ground arith
signed64-pattern_of (negsuc n) h = ground arith

-- Every `long long` that was written is read back, the extremes included.
pub read_int64-write_int64 :
    (v : ℤ) (rest : Bytes) (z : ℕ)
    → IsInt64 v
    → read_int64 (live (write_int64 v ++ rest) z) ≡ (v, live rest z)
unfolding read_int64 write_int64 get
read_int64-write_int64 v rest z h =
    rw (read_rounds-write_rounds v rest z, write_rounds-value v h, signed64-pattern_of v h)
