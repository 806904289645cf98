-- ===== src/Values/Stream/RoundTrip.antt =====
-- What was written of a value is read back as the same value.
use yast_core.Prelude.{
  ℕ, zero, suc, ◌+◌, ◌≤◌, ◌<◌, ◌≡◌, ◌∙◌, refl, ap, true, Option, none, some, ◌++◌, append_assoc,
  Bytes, length, ltb, arith,
}
use yast_core.Prelude.Int.{to_int-pos}
use yast_core.Prelude.Fault.{◌>>=◌}
use yast_core.Values.Defs.{
  break_value, return_value, Components, Value, Values, Pairs, null, void, boolean, integer, float,
  string, byteblock, path, symbol, list, term, map, nil, cons, end, entry, size, map_size, Doubles,
}
use Prim.Native.Nat.{max}
use yast_core.Bytecode.Stream.{get, read-live, live}
use yast_core.Bytecode.Int32.{write_int32, read_bool-write_bool, read_int32-write_int32}
use yast_core.Bytecode.Text.{
  IsText, FitsInt32, c_str-IsText, write_string, write_bytep, read_string-write_string,
}
use yast_core.Bytecode.Int64.{IsInt64, read_int64-write_int64}
use yast_core.Values.Path.{print_path, parse_path}
use yast_core.Values.Path.Notation.{IsPath, parse_path-print_path}
use yast_core.Values.Map.{add, copy_onto}
use yast_core.Values.Map.Laws.{IsSorted}
use yast_core.Values.Map.Copy.{copied}
use yast_core.Values.List.{push_back, append_all}
use yast_core.Values.List.Laws.{append_all-nil, set-size, size-push_back}
use yast_core.Values.Stream.{
  DoubleText, print_float, parse_float, write_value, write_elements, write_entries, read_elements,
  reserve, read_list, read_term, read_byteblock, read_entries, read_map, read_text_value,
  read_value, Reader,
}

-- A byteblock is read back whole.
read_byteblock-write_bytep :
    (b rest : Bytes) (z : ℕ)
    → length b < 2147483648
    → read_byteblock (live (write_bytep b ++ rest) z) ≡ (byteblock b, live rest z)
unfolding read_byteblock write_bytep
read_byteblock-write_bytep b rest z h = rw (
  append_assoc (write_int32 (length b)) b rest,
  read_int32-write_int32 (length b) (b ++ rest) z (omega arith),
  read-live b rest z,
)

-- Two ways to go on behind the same step.
bind_parts :
    {A B C : Type 0} (o : Option A) (f : A → Option C) (g : A → Option B) (k : B → Option C)
    → ((a : A) → f a ≡ (g a >>= k))
    → (o >>= f) ≡ (o >>= g >>= k)
bind_parts none f g k h = refl
bind_parts (some a) f g k h = h a

reserve-fits : (n : ℕ) → n < 2147483648 → reserve n ≡ some nil
unfolding reserve
reserve-fits n h = rw (to_int-pos n h) refl

-- A list is read back behind its count if its elements are.
read_list-elements :
    (reader : Reader) (vs : Values) (bytes rest : Bytes) (z : ℕ)
    → size vs < 2147483648
    → read_elements reader (size vs) 0 nil (live (bytes ++ rest) z)
      ≡ some (append_all nil vs, live rest z)
    → read_list reader (live (write_int32 (size vs) ++ (bytes ++ rest)) z) ≡ some (vs, live rest z)
unfolding read_list
read_list-elements reader vs bytes rest z fits h = rw (
  read_int32-write_int32 (size vs) (bytes ++ rest) z (omega arith),
  reserve-fits (size vs) fits,
  h,
  append_all-nil vs,
)

ltb-pos : (s : Bytes) → 0 < length s → ltb 0 (length s) ≡ true
ltb-pos s h = ground arith

unfoldable mutual
  pub depth : Value → ℕ
  depth (list vs) = suc (depth_elements vs)
  depth (term s vs) = suc (depth_elements vs)
  depth (map m) = suc (depth_entries m)
  depth _ = 1

  pub depth_elements : Values → ℕ
  depth_elements nil = 0
  depth_elements (cons v vs) = max (depth v) (depth_elements vs)

  pub depth_entries : Pairs → ℕ
  depth_entries end = 0
  depth_entries (entry k v m) = max (depth k) (max (depth v) (depth_entries m))

-- A text that the string format carries: no NUL, and a length of 32 bits.
abbrev pub IsWritableText : Bytes → Type 0
IsWritableText t = IsText t × FitsInt32 t

module _ (doubles : Doubles) (text : DoubleText) where
  -- The values that the format carries: no null handle, no result of break or return, texts without NUL, paths in the sense of
  -- the path notation, doubles that their text gives back, terms with a name, maps in order, and
  -- counts of 31 bits (32 for a map).
  abbrev mutual
    pub IsWritable : Value → Type 0
    IsWritable null = ⊥
    IsWritable void = Unit
    IsWritable (boolean b) = Unit
    IsWritable (integer i) = IsInt64 i
    IsWritable (float f) =
        IsWritableText (print_float text f) × (parse_float text (print_float text f) ≡ f)
    IsWritable (string s) = IsWritableText s
    IsWritable (byteblock b) = length b < 2147483648
    IsWritable (path p) = IsPath p × IsWritableText (print_path p)
    IsWritable (symbol s) = IsWritableText s
    IsWritable (list vs) = (size vs < 2147483648) × AreWritable vs
    IsWritable (term s vs) =
        IsWritableText s × (0 < length s) × (size vs < 2147483648) × AreWritable vs
    IsWritable break_value = ⊥
    IsWritable return_value = ⊥
    IsWritable (map m) = (map_size m < 4294967296) × IsSorted doubles m × EntriesAreWritable m

    pub AreWritable : Values → Type 0
    AreWritable nil = Unit
    AreWritable (cons v vs) = IsWritable v × AreWritable vs

    pub EntriesAreWritable : Pairs → Type 0
    EntriesAreWritable end = Unit
    EntriesAreWritable (entry k v m) = IsWritable k × IsWritable v × EntriesAreWritable m

  mutual
    unfolding write_value

    write_good : (v : Value) → IsWritable v → (write_value text v).1 ≡ true
    write_good null h = elim h [ ]
    write_good (list vs) h = write_elements_good vs h.1
    write_good (term s vs) h = write_elements_good vs h.3
    write_good break_value h = elim h [ ]
    write_good return_value h = elim h [ ]
    write_good (map m) h = write_entries_good m h.2
    write_good _ h = refl

    write_elements_good : (vs : Values) → AreWritable vs → (write_elements text vs).1 ≡ true
    write_elements_good nil h = refl
    write_elements_good (cons v vs) h = rw (write_good v h.0) (write_elements_good vs h.1)

    write_entries_good : (m : Pairs) → EntriesAreWritable m → (write_entries text m).1 ≡ true
    write_entries_good end h = refl
    write_entries_good (entry k v m) h =
        rw (write_good k h.0, write_good v h.1) (write_entries_good m h.2)

  text_value :
      (make : Bytes → Value) (t rest : Bytes) (z : ℕ)
      → IsWritableText t
      → read_text_value doubles text make (live (write_string t ++ rest) z)
        ≡ some (make t, live rest z)
  unfolding read_text_value
  text_value make t rest z h = rw (read_string-write_string t rest z h.1, c_str-IsText t h.0)

  abbrev Reads : Value → Type 0
  Reads v =
      (f : ℕ) (rest : Bytes) (z : ℕ)
      → IsWritable v
      → depth v ≤ f
      → read_value doubles text f (live ((write_value text v).0 ++ rest) z) ≡ some (v, live rest z)

  depth_pos : (v : Value) → 0 < depth v
  unfolding depth
  depth_pos null = omega arith
  depth_pos _ = omega arith

  mutual
    unfolding read_value read_elements append_all write_value depth get copy_onto read_term read_map
        read_entries

    read_value-Reads : (v : Value) → Reads v
    read_value-Reads v zero rest z h deep = absurd (omega (arith, depth_pos v))
    read_value-Reads null (suc f) rest z h deep = elim h [ ]
    read_value-Reads void (suc f) rest z h deep = refl
    read_value-Reads (boolean b) (suc f) rest z h deep = rw (read_bool-write_bool b rest z)
    read_value-Reads (integer i) (suc f) rest z h deep = rw (read_int64-write_int64 i rest z h)
    read_value-Reads (float d) (suc f) rest z h deep =
        text_value (λ t. float (parse_float text t)) (print_float text d) rest z h.0
        ∙ ap (λ (n : ℕ). some (float n, live rest z)) h.1
    read_value-Reads (string s) (suc f) rest z h deep = text_value string s rest z h
    read_value-Reads (byteblock b) (suc f) rest z h deep =
        rw (read_byteblock-write_bytep b rest z h)
    read_value-Reads (path p) (suc f) rest z h deep =
        text_value (λ t. path (parse_path t)) (print_path p) rest z h.1
        ∙ ap (λ (q : Components). some (path q, live rest z)) (parse_path-print_path p h.0)
    read_value-Reads (symbol s) (suc f) rest z h deep = text_value symbol s rest z h
    read_value-Reads (list vs) (suc f) rest z h deep =
        let elements = read_elements-Reads vs nil f rest z (omega (arith, h.0)) h.1 (omega arith) in
        rw (
          append_assoc (write_int32 (size vs)) (write_elements text vs).0 rest,
          read_list-elements (read_value doubles text f) vs (write_elements text vs).0 rest z h.0
              elements,
        )
    read_value-Reads (term s vs) (suc f) rest z h deep =
        let elements = read_elements-Reads vs nil f rest z (omega (arith, h.2)) h.3 (omega arith) in
        rw (
          append_assoc (write_string s) (write_int32 (size vs) ++ (write_elements text vs).0) rest,
          append_assoc (write_int32 (size vs)) (write_elements text vs).0 rest,
          read_term,
          read_string-write_string s (write_int32 (size vs) ++ ((write_elements text vs).0 ++ rest))
              z h.0.1,
          c_str-IsText s h.0.0,
          ltb-pos s h.1,
          read_list-elements (read_value doubles text f) vs (write_elements text vs).0 rest z h.2
              elements,
        )
    read_value-Reads break_value (suc f) rest z h deep = elim h [ ]
    read_value-Reads return_value (suc f) rest z h deep = elim h [ ]
    read_value-Reads (map m) (suc f) rest z h deep = rw (
      append_assoc (write_int32 (map_size m)) (write_entries text m).0 rest,
      read_map,
      read_int32-write_int32 (map_size m) ((write_entries text m).0 ++ rest) z h.0,
      read_entries-Reads m end f rest z h.2 (omega arith),
      copied doubles m h.1,
    )

    read_elements-Reads :
        (ws vs : Values) (f : ℕ) (rest : Bytes) (z : ℕ)
        → size vs + size ws < 2147483648
        → AreWritable ws
        → depth_elements ws ≤ f
        → read_elements
            (read_value doubles text f)
            (size ws)
            (size vs)
            vs
            (live ((write_elements text ws).0 ++ rest) z)
          ≡ some (append_all vs ws, live rest z)
    read_elements-Reads nil vs f rest z fits h deep = refl
    read_elements-Reads (cons w ws) vs f rest z fits h deep =
        let more =
          read_elements-Reads ws (push_back vs w) f rest z
            (omega (arith, fits, size-push_back vs w)) h.1 (omega arith) in
        rw
          (
            write_good w h.0,
            append_assoc (write_value text w).0 (write_elements text ws).0 rest,
            read_value-Reads w f ((write_elements text ws).0 ++ rest) z h.0 (omega arith),
            to_int-pos (size vs) (omega (arith, fits)),
            set-size vs w,
          )
          (rw (size-push_back vs w) at more)

    read_entries-Reads :
        (m n : Pairs) (f : ℕ) (rest : Bytes) (z : ℕ)
        → EntriesAreWritable m
        → depth_entries m ≤ f
        → read_entries doubles text
            (read_value doubles text f)
            (map_size m)
            n
            (live ((write_entries text m).0 ++ rest) z)
          ≡ (copy_onto doubles m n >>= λ n'. some (n', live rest z))
    read_entries-Reads end n f rest z h deep = refl
    read_entries-Reads (entry k v m) n f rest z h deep =
        let tail = (write_value text v).0 ++ ((write_entries text m).0 ++ rest) in
        rw
          (
            write_good k h.0,
            write_good v h.1,
            append_assoc (write_value text k).0 ((write_value text v).0 ++ (write_entries text m).0)
                rest,
            append_assoc (write_value text v).0 (write_entries text m).0 rest,
            read_value-Reads k f tail z h.0 (omega arith),
            read_value-Reads v f ((write_entries text m).0 ++ rest) z h.1 (omega arith),
          )
          (bind_parts (add doubles k v n) _ (copy_onto doubles m) (λ n'. some (n', live rest z))
            (λ n'. read_entries-Reads m n' f rest z h.2 (omega arith)))

  -- With fuel for its depth, readValue reads a written value back as it was, and the stream stands
  -- behind it: for every value that the format carries (`IsWritable`).
  pub read_value-write_value :
      (v : Value) (f : ℕ) (rest : Bytes) (z : ℕ)
      → IsWritable v
      → depth v ≤ f
      → read_value doubles text f (live ((write_value text v).0 ++ rest) z) ≡ some (v, live rest z)
  read_value-write_value = read_value-Reads

  -- Writing a value that the format carries (`IsWritable`) does not fail the stream.
  pub write_value-good : (v : Value) → IsWritable v → (write_value text v).1 ≡ true
  write_value-good = write_good
