-- ===== src/Values/Map/Laws.antt =====
-- A YCP map is in ascending order of its keys, each key at most once, and behaves as a finite map.
use yast_core.Prelude.{◌≡◌, ◌∙◌, subst, refl, Bool, true, false, none, some, if◌then◌else◌, arith}
use yast_core.Prelude.Fault.{◌>>=◌}
use yast_core.Values.Order.{YcpOrder, less, equal}
use yast_core.Values.Defs.{Value, Pairs, null, integer, string, symbol, end, entry, Doubles}
use yast_core.Values.Compare.{compare}
use yast_core.Values.Map.{is_key, put, add, find, erase, remove, has_key, value}
use yast_core.Values.Map.Keys.{IsKey, key_ne_fault, key_flip, key_trans, key_equal}

pub is_key-IsKey : (k : Value) → IsKey k → is_key k ≡ true
is_key-IsKey (string s) h = refl
is_key-IsKey (integer i) h = refl
is_key-IsKey (symbol s) h = refl
is_key-IsKey _ h = elim h [ ]

abbrev pub is_equal : YcpOrder → Bool
is_equal equal = true
is_equal _ = false

module _ (doubles : Doubles) where
  -- Every key of the map is a proper key, and greater than `k`.
  abbrev pub Above : Value → Pairs → Type 0
  Above k end = Unit
  Above k (entry j v m) = IsKey j × (compare doubles k j ≡ less) × Above k m

  abbrev pub IsSorted : Pairs → Type 0
  IsSorted end = Unit
  IsSorted (entry k v m) = IsKey k × Above k m × IsSorted m

  pub Above-trans :
      (i j : Value) (m : Pairs)
      → IsKey i
      → IsKey j
      → compare doubles i j ≡ less
      → Above j m
      → Above i m
  Above-trans i j end hi hj h above = tt
  Above-trans i j (entry k v m) hi hj h above =
      (above.0, key_trans doubles i j k hi hj above.0 h above.1, Above-trans i j m hi hj h above.2)

  pub Above-equal :
      (i j : Value) (m : Pairs)
      → IsKey i
      → IsKey j
      → compare doubles i j ≡ equal
      → Above j m
      → Above i m
  Above-equal i j end hi hj h above = tt
  Above-equal i j (entry k v m) hi hj h above = (
    above.0,
    key_equal doubles i j k hi hj above.0 h ∙ above.1,
    Above-equal i j m hi hj h above.2,
  )

  put-Above :
      (j k v : Value) (m : Pairs)
      → IsKey k
      → compare doubles j k ≡ less
      → Above j m
      → Above j (put doubles k v m)
  unfolding put
  put-Above j k v end hk h above = (hk, h, tt)
  put-Above j k v (entry l w m) hk h above = ground (arith, put-Above j k v m hk h above.2)

  -- The order that a map keeps: `ycp_less` in both directions from one comparison.
  pub put-IsSorted : (k v : Value) (m : Pairs) → IsKey k → IsSorted m → IsSorted (put doubles k v m)
  unfolding put
  put-IsSorted k v end hk s = (hk, tt, tt)
  put-IsSorted k v (entry l w m) hk s = ground (
    arith,
    key_flip doubles l k s.0 hk,
    put-Above l k v m hk,
    put-IsSorted k v m hk s.2,
    Above-trans k l m hk s.0,
  )

  find-Above : (k : Value) (m : Pairs) → IsKey k → Above k m → find doubles k m ≡ none
  unfolding find
  find-Above k end hk above = refl
  find-Above k (entry l w m) hk above = ground (arith, key_flip doubles k l hk above.0)

  pub find-put :
      (j k v : Value) (m : Pairs)
      → IsKey j
      → IsKey k
      → IsSorted m
      → find doubles j (put doubles k v m)
        ≡ (if is_equal (compare doubles j k) then some v else find doubles j m)
  unfolding find put
  find-put j k v end hj hk s =
      ground (arith, key_flip doubles j k hj hk, key_ne_fault doubles j k hj hk)
  find-put j k v (entry l w m) hj hk s = ground (
    arith,
    key_ne_fault doubles j k hj hk,
    key_ne_fault doubles l k s.0 hk,
    key_ne_fault doubles l j s.0 hj,
    key_flip doubles j k hj hk,
    key_flip doubles l k s.0 hk,
    key_flip doubles l j s.0 hj,
    key_trans doubles j l k hj s.0 hk,
    key_trans doubles l j k s.0 hj hk,
    key_trans doubles k l j hk s.0 hj,
    key_trans doubles l k j s.0 hk hj,
    key_equal doubles l j k s.0 hj hk,
    key_equal doubles l k j s.0 hk hj,
    key_equal doubles j k l hj hk s.0,
    find-put j k v m hj hk s.2,
  )

  erase-Above : (j k : Value) (m : Pairs) → Above j m → Above j (erase doubles k m)
  unfolding erase
  erase-Above j k end above = tt
  erase-Above j k (entry l w m) above = ground (arith, erase-Above j k m above.2)

  erase-IsSorted : (k : Value) (m : Pairs) → IsSorted m → IsSorted (erase doubles k m)
  unfolding erase
  erase-IsSorted k end s = tt
  erase-IsSorted k (entry l w m) s = ground (arith, erase-Above l k m s.1, erase-IsSorted k m s.2)

  find-erase :
      (j k : Value) (m : Pairs)
      → IsKey j
      → IsKey k
      → IsSorted m
      → find doubles j (erase doubles k m)
        ≡ (if is_equal (compare doubles j k) then none else find doubles j m)
  unfolding find erase
  find-erase j k end hj hk s = ground arith
  find-erase j k (entry l w m) hj hk s = ground (
    arith,
    key_ne_fault doubles j k hj hk,
    key_ne_fault doubles l k s.0 hk,
    key_ne_fault doubles l j s.0 hj,
    key_flip doubles j k hj hk,
    key_flip doubles l k s.0 hk,
    key_flip doubles l j s.0 hj,
    key_trans doubles j l k hj s.0 hk,
    key_trans doubles l j k s.0 hj hk,
    key_trans doubles k l j hk s.0 hj,
    key_trans doubles l k j s.0 hk hj,
    key_equal doubles l j k s.0 hj hk,
    key_equal doubles l k j s.0 hk hj,
    key_equal doubles j k l hj hk s.0,
    find-Above j m hj,
    Above-trans j l m hj s.0,
    Above-equal j l m hj s.0,
    find-erase j k m hj hk s.2,
  )

module _ (doubles : Doubles) where
  pub add-key : (k v : Value) (m : Pairs) → IsKey k → add doubles k v m ≡ some (put doubles k v m)
  unfolding add
  add-key (string s) v m h = refl
  add-key (integer i) v m h = refl
  add-key (symbol s) v m h = refl
  add-key _ v m h = elim h [ ]

  remove-key : (k : Value) (m : Pairs) → IsKey k → remove doubles k m ≡ some (erase doubles k m)
  unfolding remove
  remove-key (string s) m h = refl
  remove-key (integer i) m h = refl
  remove-key (symbol s) m h = refl
  remove-key _ m h = elim h [ ]

  -- YCPMapRep::add, where it is no fault, keeps the entries in strictly ascending order of proper
  -- keys (string, integer or symbol), whatever the key and the value.
  pub add-IsSorted :
      (k v : Value) (m n : Pairs)
      → IsSorted doubles m
      → add doubles k v m ≡ some n
      → IsSorted doubles n
  unfolding add
  add-IsSorted null v m n s h = cc
  add-IsSorted (string t) v m n s h =
      subst (IsSorted doubles) (cc) (put-IsSorted doubles (string t) v m tt s)
  add-IsSorted (integer i) v m n s h =
      subst (IsSorted doubles) (cc) (put-IsSorted doubles (integer i) v m tt s)
  add-IsSorted (symbol t) v m n s h =
      subst (IsSorted doubles) (cc) (put-IsSorted doubles (symbol t) v m tt s)
  add-IsSorted _ v m n s h = subst (IsSorted doubles) (cc) s

  -- YCPMapRep::remove, where it is no fault, keeps the entries in strictly ascending order of
  -- proper keys, whatever the key.
  pub remove-IsSorted :
      (k : Value) (m n : Pairs)
      → IsSorted doubles m
      → remove doubles k m ≡ some n
      → IsSorted doubles n
  unfolding remove
  remove-IsSorted null m n s h = cc
  remove-IsSorted (string t) m n s h =
      subst (IsSorted doubles) (cc) (erase-IsSorted doubles (string t) m s)
  remove-IsSorted (integer i) m n s h =
      subst (IsSorted doubles) (cc) (erase-IsSorted doubles (integer i) m s)
  remove-IsSorted (symbol t) m n s h =
      subst (IsSorted doubles) (cc) (erase-IsSorted doubles (symbol t) m s)
  remove-IsSorted _ m n s h = subst (IsSorted doubles) (cc) s

  -- After `add (key, value)` to a map in ascending order, a lookup at a proper key finds the new
  -- value if the key compares equal to `key`, and what it found before otherwise. `key` is proper
  -- too, so the add is no fault.
  pub value-add :
      (j k v : Value) (m : Pairs)
      → IsKey j
      → IsKey k
      → IsSorted doubles m
      → (add doubles k v m >>= λ n. some (value doubles j n))
        ≡ some (if is_equal (compare doubles j k) then v else value doubles j m)
  unfolding value
  value-add j k v m hj hk s =
      rw (add-key k v m hk) (ground (arith, find-put doubles j k v m hj hk s))

  -- After `remove (key)` on a map in ascending order, the map has no key that compares equal to
  -- `key`, and has the other proper keys as before. `key` is proper too, so the remove is no
  -- fault.
  pub has_key-remove :
      (j k : Value) (m : Pairs)
      → IsKey j
      → IsKey k
      → IsSorted doubles m
      → (remove doubles k m >>= λ n. some (has_key doubles j n))
        ≡ some (if is_equal (compare doubles j k) then false else has_key doubles j m)
  unfolding has_key
  has_key-remove j k m hj hk s =
      rw (remove-key k m hk) (ground (arith, find-erase doubles j k m hj hk s))
