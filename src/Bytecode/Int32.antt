-- ===== src/Bytecode/Int32.antt =====
-- The fixed-size values of libycp/src/Bytecode.cc: bool and u_int32_t.
use yast_core.Prelude.{
  ℕ, ◌+◌, ◌*◌, ◌/◌, ◌%◌, ◌<◌, ◌≡◌, refl, Bool, true, false, not, [], ◌∷◌, ◌++◌, Bytes, ◌==◌,
  if◌then◌else◌, arith,
}
use yast_core.Bytecode.Stream.{Stream, get, read, live, read-live}

unfoldable pub write_bool : Bool → Bytes
write_bool value = (if value then 1 else 0) ∷ []

unfoldable pub read_bool : Stream → Bool × Stream
read_bool s = let (c, s') = get s in (not (c == 0), s')

-- The length byte 4, then the least significant byte first.
unfoldable pub write_int32 : ℕ → Bytes
write_int32 value =
    4 ∷ value % 256 ∷ value / 256 % 256 ∷ value / 65536 % 256 ∷ value / 16777216 % 256 ∷ []

-- The four bytes do not overlap, so `|` of their shifts is a sum.
unfoldable pub int32_of : Bytes → ℕ
int32_of (len ∷ v1 ∷ v2 ∷ v3 ∷ v4 ∷ _) =
    if len == 4 then v1 + 256 * v2 + 65536 * v3 + 16777216 * v4 else 0
int32_of _ = 0

unfoldable pub read_int32 : Stream → ℕ × Stream
unfolding int32_of
read_int32 s = let (v, s') = read 5 s in (int32_of v, s')

pub read_bool-write_bool :
    (b : Bool) (rest : Bytes) (z : ℕ) → read_bool (live (write_bool b ++ rest) z) ≡ (b, live rest z)
unfolding read_bool write_bool get
read_bool-write_bool true rest z = refl
read_bool-write_bool false rest z = refl

int32_of-write_int32 : (n : ℕ) → n < 4294967296 → int32_of (write_int32 n) ≡ n
unfolding int32_of write_int32
int32_of-write_int32 n h = omega arith

read-write_int32 :
    (n : ℕ) (rest : Bytes) (z : ℕ)
    → read 5 (live (write_int32 n ++ rest) z) ≡ (write_int32 n, live rest z)
unfolding write_int32
read-write_int32 n rest z = read-live (write_int32 n) rest z

-- A 32-bit value that was written is read back, and the stream stands behind it.
pub read_int32-write_int32 :
    (n : ℕ) (rest : Bytes) (z : ℕ)
    → n < 4294967296
    → read_int32 (live (write_int32 n ++ rest) z) ≡ (n, live rest z)
unfolding read_int32
read_int32-write_int32 n rest z h = rw (read-write_int32 n rest z, int32_of-write_int32 n h)
