-- ===== src/Bytecode/Stream.antt =====
-- bytecodeistream (libycp/src/include/ycp/Bytecode.h) as an input stream: the bytes that are left,
-- the stream's state, and what uninitialised memory holds where a read comes up short. A `read` or
-- `get` past the end sets the fail bit, and a stream that has failed delivers nothing.
use yast_core.Prelude.{ℕ, zero, suc, ◌≡◌, refl, Bool, true, false, [], ◌∷◌, ◌++◌, Bytes, length}

pub record Stream : Type 0 where
  pub rest : Bytes
  pub good : Bool
  pub stale : ℕ

-- `str.get (c)`: `c` keeps its old contents where nothing is read.
get_from : Bytes → Bool → Stream → ℕ × Stream
get_from (c ∷ cs) true s = (c, record s { rest = cs })
get_from _ _ s = (s.stale, record s { good = false })

unfoldable pub get : Stream → ℕ × Stream
unfolding get_from
get s = get_from s.rest s.good s

-- `str.read (buf, n)`.
unfoldable pub read : ℕ → Stream → Bytes × Stream
read zero s = ([], s)
read (suc n) s = let (c, s') = get s in let (cs, s'') = read n s' in (c ∷ cs, s'')

-- A stream in good state that will deliver `bytes`.
abbrev pub live : Bytes → ℕ → Stream
live bytes stale = record { rest = bytes; good = true; stale = stale }

pub read-live :
    (bytes rest : Bytes) (z : ℕ)
    → read (length bytes) (live (bytes ++ rest) z) ≡ (bytes, live rest z)
unfolding read get
read-live [] rest z = refl
read-live (b ∷ bs) rest z = rw (read-live bs rest z)
