-- ===== src/Types/Stream/RoundTrip.antt =====
-- What Bytecode::readType makes of the bytes that Type::toStream wrote.
use yast_core.Prelude.{ℕ, zero, suc, ◌≤◌, ◌<◌, ◌≡◌, refl, some, ◌++◌, append_assoc, Bytes, arith}
use yast_core.Types.Kind.{
  Kind, unspec_t, flex_t, variable_t, list_t, map_t, block_t, tuple_t, function_t, nflex_t, code,
}
use yast_core.Types.Defs.{
  Quals, YcpType, YcpTypes, base, flex, nflex, variable, list, map, block, tuple, function_void,
  function, nil, cons, count,
}
use Prim.Native.Nat.{max}
use yast_core.Bytecode.Stream.{live}
use yast_core.Bytecode.Int32.{
  write_bool, write_int32, read_int32, read_bool-write_bool, read_int32-write_int32,
}
use yast_core.Types.Stream.{
  write_base, write_type, write_types, read_quals, read_components, layout, plain_object, read_type,
  function_of,
}

-- The type that comes back: readType makes a plain object of class Type for the kind FlexT, where
-- a FlexType was written. All else is as it was.
unfoldable mutual
  pub reread : YcpType → YcpType
  reread (base k q) = base k q
  reread (flex q) = base flex_t q
  reread (nflex q n) = nflex q n
  reread (variable q t) = variable q (reread t)
  reread (list q t) = list q (reread t)
  reread (map q k v) = map q (reread k) (reread v)
  reread (block q t) = block q (reread t)
  reread (tuple q ts) = tuple q (reread_all ts)
  reread (function_void q r) = function_void q (reread r)
  reread (function q r p ts) = function q (reread r) p (reread_all ts)

  pub reread_all : YcpTypes → YcpTypes
  reread_all nil = nil
  reread_all (cons t ts) = cons (reread t) (reread_all ts)

-- How deep the reader has to go.
unfoldable mutual
  pub depth : YcpType → ℕ
  depth (base k q) = 1
  depth (flex q) = 1
  depth (nflex q n) = 1
  depth (variable q t) = suc (depth t)
  depth (list q t) = suc (depth t)
  depth (map q k v) = suc (max (depth k) (depth v))
  depth (block q t) = suc (depth t)
  depth (tuple q ts) = suc (depth_all ts)
  depth (function_void q r) = suc (depth r)
  depth (function q r p ts) = suc (max (depth r) (suc (depth_all ts)))

  pub depth_all : YcpTypes → ℕ
  depth_all nil = 0
  depth_all (cons t ts) = max (depth t) (depth_all ts)

-- The kinds that are objects of class Type in the bytecode.
abbrev pub IsPlain : Kind → Type 0
IsPlain variable_t = ⊥
IsPlain list_t = ⊥
IsPlain map_t = ⊥
IsPlain block_t = ⊥
IsPlain tuple_t = ⊥
IsPlain function_t = ⊥
IsPlain nflex_t = ⊥
IsPlain _ = Unit

-- The numbers in a type fit their 32 bits, and objects of class Type carry a basic kind.
abbrev mutual
  pub Fits : YcpType → Type 0
  Fits (base k q) = IsPlain k
  Fits (flex q) = Unit
  Fits (nflex q n) = n < 4294967296
  Fits (variable q t) = Fits t
  Fits (list q t) = Fits t
  Fits (map q k v) = Fits k × Fits v
  Fits (block q t) = Fits t
  Fits (tuple q ts) = FitsAll ts × (count ts < 4294967296)
  Fits (function_void q r) = Fits r
  Fits (function q r p ts) = Fits r × FitsAll ts × (count ts < 4294967296)

  pub FitsAll : YcpTypes → Type 0
  FitsAll nil = Unit
  FitsAll (cons t ts) = Fits t × FitsAll ts

qualifiers : Quals → Bytes
qualifiers q = write_bool q.is_const ++ write_bool q.is_reference

code-lt : (k : Kind) → code k < 4294967296
code-lt unspec_t = omega arith
code-lt _ = omega arith

read_head :
    (k : Kind) (q : Quals) (rest : Bytes) (z : ℕ)
    → read_int32 (live (write_base k q ++ rest) z) ≡ (code k, live (qualifiers q ++ rest) z)
unfolding write_base qualifiers
read_head k q rest z =
    rw
      (append_assoc (write_int32 (code k)) (write_bool q.is_const ++ write_bool q.is_reference)
        rest)
      (read_int32-write_int32 (code k) (qualifiers q ++ rest) z (code-lt k))

read_quals_lem :
    (q : Quals) (rest : Bytes) (z : ℕ)
    → read_quals (live (qualifiers q ++ rest) z) ≡ (q, live rest z)
unfolding read_quals qualifiers
read_quals_lem q rest z = simp (append_assoc, read_bool-write_bool)

ruleset steps = (append_assoc, read_head, read_quals_lem, read_bool-write_bool)

layout-plain : (k : Kind) → IsPlain k → layout (code k) ≡ plain_object k
unfolding layout
layout-plain variable_t h = elim h [ ]
layout-plain list_t h = elim h [ ]
layout-plain map_t h = elim h [ ]
layout-plain block_t h = elim h [ ]
layout-plain tuple_t h = elim h [ ]
layout-plain function_t h = elim h [ ]
layout-plain nflex_t h = elim h [ ]
layout-plain _ h = refl

depth_pos : (t : YcpType) → 0 < depth t
unfolding depth
depth_pos (base k q) = omega arith
depth_pos _ = omega arith

abbrev Reads : YcpType → Type 0
Reads t =
    (f : ℕ) (rest : Bytes) (z : ℕ)
    → Fits t
    → depth t ≤ f
    → read_type f (live (write_type t ++ rest) z) ≡ some (reread t, live rest z)

abbrev ReadsAll : YcpTypes → Type 0
ReadsAll ts =
    (f : ℕ) (rest : Bytes) (z : ℕ)
    → FitsAll ts
    → depth_all ts ≤ f
    → read_components (read_type f) (count ts) (live (write_types ts ++ rest) z)
      ≡ some (reread_all ts, live rest z)

mutual
  unfolding read_type function_of write_type depth reread

  read_type-Reads : (t : YcpType) → Reads t
  read_type-Reads t zero rest z fits deep = absurd (omega (arith, depth_pos t))
  read_type-Reads (base k q) (suc f) rest z fits deep = simp (steps, layout-plain k fits)
  read_type-Reads (flex q) (suc f) rest z fits deep = simp steps
  read_type-Reads (nflex q n) (suc f) rest z fits deep =
      simp (steps, read_int32-write_int32 n _ _ fits)
  read_type-Reads (variable q t) (suc f) rest z fits deep =
      simp (steps, read_type-Reads t f rest z fits (omega arith))
  read_type-Reads (list q t) (suc f) rest z fits deep =
      simp (steps, read_type-Reads t f rest z fits (omega arith))
  read_type-Reads (block q t) (suc f) rest z fits deep =
      simp (steps, read_type-Reads t f rest z fits (omega arith))
  read_type-Reads (map q k v) (suc f) rest z fits deep = simp (
    steps,
    read_type-Reads k f _ z fits.0 (omega arith),
    read_type-Reads v f rest z fits.1 (omega arith),
  )
  read_type-Reads (tuple q ts) (suc f) rest z fits deep = simp (
    steps,
    read_int32-write_int32 (count ts) _ _ fits.1,
    read_components-Reads ts f rest z fits.0 (omega arith),
  )
  read_type-Reads (function_void q r) (suc f) rest z fits deep =
      simp (steps, read_type-Reads r f _ z fits (omega arith))
  read_type-Reads (function q r p ts) (suc zero) rest z fits deep =
      absurd (omega (arith, depth_pos r))
  read_type-Reads (function q r p ts) (suc (suc f)) rest z fits deep =
      let arguments = read_components-Reads ts f rest z fits.1 (omega arith) in
      simp (
        steps,
        read_type-Reads r (suc f) _ z fits.0 (omega arith),
        read_int32-write_int32 (count ts) _ _ fits.2,
        arguments,
      )

  read_components-Reads : (ts : YcpTypes) → ReadsAll ts
  read_components-Reads nil f rest z fits deep = refl
  read_components-Reads (cons t ts) f rest z fits deep = simp (
    steps,
    read_type-Reads t f _ z fits.0 (omega arith),
    read_components-Reads ts f rest z fits.1 (omega arith),
  )

-- With fuel for its depth, readType reads a written type back as `reread` says, and the stream
-- stands behind it. The type's numbers and counts fit 32 bits, and its objects of class Type have
-- basic kinds.
pub read_type-write_type :
    (t : YcpType) (f : ℕ) (rest : Bytes) (z : ℕ)
    → Fits t
    → depth t ≤ f
    → read_type f (live (write_type t ++ rest) z) ≡ some (reread t, live rest z)
read_type-write_type = read_type-Reads
