-- ===== src/Values/Stream.antt =====
-- The values as bytecode: Bytecode::writeValue, Bytecode::readValue and the toStream methods and
-- stream constructors of the value classes (libycp/src/Bytecode.cc, libycp/src/YCP*.cc).
pub mod RoundTrip
use yast_core.Prelude.{
  ℕ, zero, suc, Bool, true, false, ◌&&◌, ◌||◌, Option, none, some, [], ◌∷◌, ◌++◌, Bytes, ◌==◌,
  if◌then◌else◌,
}
use yast_core.Prelude.Int.{pos, is_negative, to_int}
use yast_core.Prelude.Fault.{◌>>=◌}
use yast_core.Values.Defs.{
  break_value, return_value, Value, Values, Pairs, null, void, boolean, integer, float, string,
  byteblock, path, symbol, list, term, map, nil, cons, end, entry, size, map_size, Doubles,
}
use yast_core.Bytecode.Stream.{Stream, get, read}
use yast_core.Bytecode.Int32.{write_bool, read_bool, write_int32, read_int32}
use yast_core.Bytecode.Text.{write_string, read_string, write_bytep}
use yast_core.Bytecode.Int64.{write_int64, read_int64}
use yast_core.Values.Path.{is_digit, print_path, parse_path}
use yast_core.Values.Map.{add}
use yast_core.Values.List.{set}

-- What the C library does with a double and its text: `v == (long) v`, `v < 100000`, the format
-- `%g`, and strtol (its number as a double, with the text that it leaves) and atof.
pub record DoubleText : Type 0 where
  pub is_whole : ℕ → Bool
  pub is_below_100000 : ℕ → Bool
  pub format : ℕ → Bytes
  pub strtol : Bytes → ℕ × Bytes
  pub atof : Bytes → ℕ

-- Bytes that went out, and whether the stream is still good: a failed stream takes nothing more.
abbrev pub Output : Type 0
Output = Bytes × Bool

infixr 5 ◌then_write◌
abbrev pub ◌then_write◌ : Output → Output → Output
a then_write b = (if a.1 then a.0 ++ b.0 else a.0, if a.1 then b.1 else false)

abbrev pub wrote : Bytes → Output
wrote bytes = (bytes, true)

abbrev starts_digit : Bytes → Bool
starts_digit [] = false
starts_digit (c ∷ r) = is_digit c

abbrev exponent : Bytes → Bool
exponent [] = false
exponent (c ∷ r) = is_digit c || ((c == b'-' || c == b'+') && starts_digit r)

-- What strtol leaves shows that the text is of a real number.
unfoldable pub looks_real : Bytes → Bool
unfolding is_digit
looks_real [] = false
looks_real (c ∷ r) = (c == b'.' && starts_digit r) || ((c == b'e' || c == b'E') && exponent r)

module _ (text : DoubleText) where
  -- YCPFloatRep::toString and YCPFloatRep::YCPFloatRep (const char *).
  unfoldable pub print_float : ℕ → Bytes
  print_float v =
      if text.is_whole v && text.is_below_100000 v
      then text.format v ++ b'.' ∷ []
      else text.format v

  unfoldable pub parse_float : Bytes → ℕ
  unfolding looks_real
  parse_float r = if looks_real (text.strtol r).1 then text.atof r else (text.strtol r).0

  -- The number of the class, and then its toStream. A null value fails the stream.
  unfoldable mutual
    pub write_value : Value → Output
    write_value null = ([], false)
    write_value void = wrote (0 ∷ [])
    write_value (boolean b) = wrote (1 ∷ write_bool b)
    write_value (integer i) = wrote (2 ∷ write_int64 i)
    write_value (float f) = wrote (3 ∷ write_string (print_float f))
    write_value (string s) = wrote (4 ∷ write_string s)
    write_value (byteblock b) = wrote (5 ∷ write_bytep b)
    write_value (path p) = wrote (6 ∷ write_string (print_path p))
    write_value (symbol s) = wrote (7 ∷ write_string s)
    write_value (list vs) = wrote (8 ∷ write_int32 (size vs)) then_write write_elements vs
    write_value (term s vs) =
        wrote (9 ∷ write_string s)
        then_write wrote (write_int32 (size vs))
        then_write write_elements vs
    write_value break_value = wrote (13 ∷ [])
    write_value return_value = wrote (12 ∷ [])
    write_value (map m) = wrote (10 ∷ write_int32 (map_size m)) then_write write_entries m

    pub write_elements : Values → Output
    write_elements nil = wrote []
    write_elements (cons v vs) = write_value v then_write write_elements vs

    pub write_entries : Pairs → Output
    write_entries end = wrote []
    write_entries (entry k v m) = write_value k then_write write_value v then_write write_entries m

abbrev pub Reader : Type 0
Reader = Stream → Option (Value × Stream)

-- YCPList (bytecodeistream &): element `index` is set as it comes. YCPListRep::set takes the index
-- for an `int`.
unfoldable pub read_elements : Reader → ℕ → ℕ → Values → Stream → Option (Values × Stream)
unfolding set to_int
read_elements reader zero index vs s = some (vs, s)
read_elements reader (suc n) index vs s = do
  (v, s') ← reader s
  read_elements reader n (suc index) (set vs (to_int (pos index)) v) s'

-- YCPListRep::reserve takes the count for an `int`: a vector throws for a negative one (`none`).
unfoldable pub reserve : ℕ → Option Values
unfolding to_int
reserve len = if is_negative (to_int (pos len)) then none else some nil

unfoldable pub read_list : Reader → Stream → Option (Values × Stream)
unfolding read_elements reserve
read_list reader s =
    let (len, s') = read_int32 s in
    let elements = reserve len >>= λ vs. read_elements reader len 0 vs s' in
    if s'.good then elements else some (nil, s')

-- The name that a term has until its own is read.
abbrev no_name : Bytes
no_name =
    b'n' ∷ b'o' ∷ b'-' ∷ b'n' ∷ b'a' ∷ b'm' ∷ b'e' ∷ b'-' ∷ b's' ∷ b'o' ∷ b'-' ∷ b'f' ∷ b'a' ∷ b'r'
    ∷ []

-- YCPTerm (bytecodeistream &): the arguments are read only behind a name that is not empty.
unfoldable pub read_term : Reader → Stream → Option (Value × Stream)
read_term reader s =
    let ((named, name), s') = read_string s in
    let arguments = read_list reader s' >>= λ (vs, s''). some (term name vs, s'') in
    if named then arguments else some (term no_name nil, s')

-- YCPByteblock (bytecodeistream &).
unfoldable pub read_byteblock : Stream → Value × Stream
read_byteblock s =
    let (len, s') = read_int32 s in
    let (bytes, s'') = read (if s'.good then len else 0) s' in (byteblock bytes, s'')

module _ (doubles : Doubles) (text : DoubleText) where
  -- YCPMap (bytecodeistream &).
  unfoldable pub read_entries : Reader → ℕ → Pairs → Stream → Option (Pairs × Stream)
  read_entries reader zero m s = some (m, s)
  read_entries reader (suc n) m s = do
    (k, s') ← reader s
    (v, s'') ← reader s'
    m' ← add doubles k v m
    read_entries reader n m' s''

  unfoldable pub read_map : Reader → Stream → Option (Value × Stream)
  unfolding read_entries
  read_map reader s =
      let (len, s') = read_int32 s in
      let entries = read_entries reader len end s' >>= λ (m, s''). some (map m, s'') in
      if s'.good then entries else some (map end, s')

  unfoldable pub read_text_value : (Bytes → Value) → Stream → Option (Value × Stream)
  read_text_value make s = let ((done, t), s') = read_string s in some (make t, s')

  -- The switch of Bytecode::readValue; code (11) is not modelled.
  unfoldable pub read_tagged : Reader → ℕ → Stream → Option (Value × Stream)
  unfolding read_text_value
  read_tagged reader vt s =
      if vt == 0
      then some (void, s)
      else if vt == 1
      then (let (b, s') = read_bool s in some (boolean b, s'))
      else if vt == 2
      then (let (i, s') = read_int64 s in some (integer i, s'))
      else if vt == 3
      then read_text_value (λ t. float (parse_float text t)) s
      else if vt == 4
      then read_text_value string s
      else if vt == 5
      then some (read_byteblock s)
      else if vt == 6
      then read_text_value (λ t. path (parse_path t)) s
      else if vt == 7
      then read_text_value symbol s
      else if vt == 8
      then (read_list reader s >>= λ (vs, s'). some (list vs, s'))
      else if vt == 9
      then read_term reader s
      else if vt == 10
      then read_map reader s
      else if vt == 11
      then none
      else some (null, s)

  -- `none`: the fuel ran out, a list was announced whose count is no `int` (an exception), a map with a null
  -- key was met (a fault), or the value is code.
  unfoldable pub read_value : ℕ → Reader
  unfolding read_tagged
  read_value zero s = none
  read_value (suc fuel) s =
      let (vt, s') = get s in
      let v = read_tagged (read_value fuel) vt s' in if s'.good then v else some (null, s')
