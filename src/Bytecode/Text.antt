-- ===== src/Bytecode/Text.antt =====
-- The variable-length values of libycp/src/Bytecode.cc: string, Ustring, char * and byte arrays.
-- A `string` of the source may hold any bytes; what is read back passes through a C string, so it
-- ends at the first NUL.
use yast_core.Prelude.{
  ℕ, suc, ◌+◌, ◌<◌, ◌≡◌, ◌≢◌, refl, Bool, true, false, Option, some, none, [], ◌∷◌, ◌++◌,
  append_assoc, Bytes, length, All, ◌==◌, ltb, if◌then◌else◌, arith, lt→ltb,
}
use yast_core.Bytecode.Stream.{Stream, read, live, read-live}
use yast_core.Bytecode.Int32.{write_int32, read_int32, read_int32-write_int32}

unfoldable pub write_string : Bytes → Bytes
write_string text = write_int32 (length text) ++ text

-- The C string at the start of a buffer.
unfoldable pub c_str : Bytes → Bytes
c_str [] = []
c_str (c ∷ cs) = if c == 0 then [] else c ∷ c_str cs

-- A `string` made from the buffer, if the read went through.
unfoldable pub read_text : ℕ → Stream → Option Bytes × Stream
unfolding c_str
read_text len s = let (buf, s') = read len s in ((if s'.good then some (c_str buf) else none), s')

-- The flag says that a non-empty string was read; the string is empty if none was.
unfoldable pub string_or_empty : Option Bytes → Bool × Bytes
string_or_empty none = (false, [])
string_or_empty (some text) = (true, text)

unfoldable pub read_string : Stream → (Bool × Bytes) × Stream
unfolding read_text string_or_empty
read_string s =
    let (len, s') = read_int32 s in
    let (text, s'') = read_text len s' in
    if ltb 0 len then (string_or_empty text, s'') else ((false, []), s')

-- The same reading; an Ustring has no flag.
unfoldable pub read_ustring : Stream → Bytes × Stream
read_ustring s = let ((done, text), s') = read_string s in (text, s')

unfoldable pub write_bytep : Bytes → Bytes
write_bytep bytes = write_int32 (length bytes) ++ bytes

-- `none` is the null pointer.
unfoldable pub read_bytep : Stream → Option Bytes × Stream
read_bytep s =
    let (len, s') = read_int32 s in
    let (buf, s'') = read len s' in
    if s'.good then ((if s''.good then some buf else none), s'') else (none, s')

-- `char *`: an empty one is not null.
unfoldable pub read_charp : Stream → Option Bytes × Stream
unfolding read_text
read_charp s =
    let (len, s') = read_int32 s in
    let (text, s'') = read_text len s' in if s'.good then (text, s'') else (none, s')

-- No NUL inside.
abbrev pub IsText : Bytes → Type 0
IsText = All (λ c. c ≢ 0)

-- Lengths of which neither the count nor the buffer of one byte more passes 32 bits.
abbrev pub FitsInt32 : Bytes → Type 0
FitsInt32 bytes = length bytes + 1 < 4294967296

pub c_str-IsText : (text : Bytes) → IsText text → c_str text ≡ text
unfolding c_str
c_str-IsText [] h = refl
c_str-IsText (c ∷ cs) h = ground (arith, c_str-IsText cs h.1)

string_or_empty-some :
    (text rest : Bytes) (z : ℕ)
    → (let r : (Bool × Bytes) × Stream = (string_or_empty (some (c_str text)), live rest z) in
        let e : (Bool × Bytes) × Stream = ((false, []), live (text ++ rest) z) in
        ◌≡◌ {A = (Bool × Bytes) × Stream}
          (if ltb 0 (length text) then r else e)
          ((ltb 0 (length text), c_str text), live rest z))
unfolding string_or_empty c_str
string_or_empty-some [] rest z = refl
string_or_empty-some (c ∷ cs) rest z = rw (lt→ltb 0 (suc (length cs)) (omega arith))

module _ (text rest : Bytes) (z : ℕ) (fits : FitsInt32 text) where
  read_length :
      read_int32 (live ((write_int32 (length text) ++ text) ++ rest) z)
      ≡ (length text, live (text ++ rest) z)
  read_length =
      rw append_assoc (read_int32-write_int32 (length text) (text ++ rest) z (omega arith))

  -- A written string, whose length fits 32 bits, is read back as its part before the first NUL,
  -- with the flag set exactly for a string that is not empty.
  pub read_string-write_string :
      read_string (live (write_string text ++ rest) z)
      ≡ ((ltb 0 (length text), c_str text), live rest z)
  unfolding read_string write_string
  read_string-write_string =
      rw (read_length, read-live text rest z) (string_or_empty-some text rest z)

  pub read_ustring-write_string :
      read_ustring (live (write_string text ++ rest) z) ≡ (c_str text, live rest z)
  unfolding read_ustring
  read_ustring-write_string = rw read_string-write_string

  -- A written byte array, whose length fits 32 bits, is read back whole, NULs included.
  pub read_bytep-write_bytep :
      read_bytep (live (write_bytep text ++ rest) z) ≡ (some text, live rest z)
  unfolding read_bytep write_bytep
  read_bytep-write_bytep = rw (read_length, read-live text rest z)

  pub read_charp-write_string :
      read_charp (live (write_string text ++ rest) z) ≡ (some (c_str text), live rest z)
  unfolding read_charp write_string
  read_charp-write_string = rw (read_length, read-live text rest z)
