-- ===== src/Values/Map/Keys.antt =====
-- The comparison of map keys, which are strings, integers and symbols: no float is met, so nothing
-- is asked of the machine's doubles.
use yast_core.Prelude.{◌≡◌, ◌≢◌}
use yast_core.Prelude.Int.{pos}
use yast_core.Values.Order.{less, equal, fault, flip}
use yast_core.Values.Defs.{Value, integer, string, symbol, Doubles}
use yast_core.Values.Compare.{compare}
use yast_core.Values.Compare.Key.{Ranked, IsWhole}
use yast_core.Values.Compare.Laws.{
  compare-ne-fault, compare-flip, compare_refl, compare_trans, compare-equal,
}

abbrev pub IsKey : Value → Type 0
IsKey (string s) = Unit
IsKey (integer i) = Unit
IsKey (symbol s) = Unit
IsKey _ = ⊥

-- No pattern of a double is needed.
no_doubles : (doubles : Doubles) → Ranked doubles
no_doubles doubles = record {
  IsNumber = λ f. ⊥;
  rank = λ f. pos 0;
  eq_rank = λ f g hf hg. absurd hf;
  lt_rank = λ f g hf hg. absurd hf;
}

module _ (doubles : Doubles) where
  key-IsWhole : (k : Value) → IsKey k → IsWhole doubles (no_doubles doubles) k
  key-IsWhole (string s) h = tt
  key-IsWhole (integer i) h = tt
  key-IsWhole (symbol s) h = tt
  key-IsWhole _ h = elim h [ ]

  pub key_refl : (k : Value) → IsKey k → compare doubles k k ≡ equal
  key_refl k h = compare_refl doubles (no_doubles doubles) k (key-IsWhole k h)

  pub key_ne_fault : (j k : Value) → IsKey j → IsKey k → compare doubles j k ≢ fault
  key_ne_fault j k hj hk =
      compare-ne-fault doubles (no_doubles doubles) j k (key-IsWhole j hj) (key-IsWhole k hk)

  pub key_flip :
      (j k : Value) → IsKey j → IsKey k → compare doubles k j ≡ flip (compare doubles j k)
  key_flip j k hj hk =
      compare-flip doubles (no_doubles doubles) j k (key-IsWhole j hj) (key-IsWhole k hk)

  pub key_trans :
      (i j k : Value)
      → IsKey i
      → IsKey j
      → IsKey k
      → compare doubles i j ≡ less
      → compare doubles j k ≡ less
      → compare doubles i k ≡ less
  key_trans i j k hi hj hk =
      compare_trans doubles (no_doubles doubles) i j k (key-IsWhole i hi) (key-IsWhole j hj)
        (key-IsWhole k hk)

  pub key_equal :
      (i j k : Value)
      → IsKey i
      → IsKey j
      → IsKey k
      → compare doubles i j ≡ equal
      → compare doubles i k ≡ compare doubles j k
  key_equal i j k hi hj hk =
      compare-equal doubles (no_doubles doubles) i j k (key-IsWhole i hi) (key-IsWhole j hj)
        (key-IsWhole k hk)
